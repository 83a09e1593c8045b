-- ===== src/Revocation.antt =====
-- src/services/token-revocation.ts: the table of revoked tokens. `parseTimeToMs` stands in
-- Config/Expiry. Logging only prints.
pub mod Revoked
pub mod Cleanup
use af_auth.Base.{
  ℕ, zero, suc, ◌+◌, ◌-◌, ◌*◌, String, Bool, true, false, not, Option, none, some, ◌&&◌, truthy,
  or_null, is_some, ◌===◌, if◌then◌else◌,
}
use af_auth.Base.Eff.{
  Result, ok, err, error, Thrown, message, Eff, pure, throw, query, command, try_catch, branch, now,
  count_metric, jwt_operation, revocation_check, ◌>>=◌, ◌>>◌,
}
use af_auth.Base.Int.{day_ms}
use af_auth.Config.Expiry.{parse_time_to_ms}
use af_auth.Env.{Env, RevokedToken, User, Claims}
use af_auth.Jwt.{VerifyResult, verify_jwt}

pub record RevokeResult : Type 0 where
  pub success : Bool
  pub jti : Option String
  pub error_text : Option String

abbrev pub revoked_ok : String → RevokeResult
revoked_ok jti = record { success = true; jti = some jti; error_text = none }

abbrev pub revoked_failed : String → RevokeResult
revoked_failed e = record { success = false; jti = none; error_text = some e }

pub record AccessResult : Type 0 where
  pub success : Bool
  pub message_text : String

module _ {S : Type 0} (env : Env S) where
  -- `claims.exp ? new Date(claims.exp * 1000) : new Date(Date.now() + parseTimeToMs(…))`
  expiry_of : Option ℕ → Eff S ℕ
  expiry_of none = do t ← now; pure (t + parse_time_to_ms env.config.jwt_expires_in)
  expiry_of (some zero) = do t ← now; pure (t + parse_time_to_ms env.config.jwt_expires_in)
  expiry_of (some (suc n)) = pure (suc n * 1000)

  issue_time_of : Option ℕ → Eff S ℕ
  issue_time_of none = now
  issue_time_of (some zero) = now
  issue_time_of (some (suc n)) = pure (suc n * 1000)

  -- The rest of `revokeToken` when the table has no row, or has one, for the token.
  add_row :
      Claims → String → Option String → Option String → Option RevokedToken → Eff S RevokeResult
  add_row claims jti revoked_by reason (some existing) = pure (revoked_ok jti)
  add_row claims jti revoked_by reason none = do
    token_expires_at ← expiry_of claims.exp
    token_issued_at ← issue_time_of claims.iat
    command (
        env.create_revoked (record {
          jti = jti;
          user_id = claims.sub;
          token_issued_at = token_issued_at;
          token_expires_at = token_expires_at;
          revoked_by = or_null revoked_by;
          reason = or_null reason;
        }))
    count_metric (jwt_operation "revoke" "success")
    pure (revoked_ok jti)

  revoke_jti : Claims → Option String → Option String → Option String → Eff S RevokeResult
  revoke_jti claims none revoked_by reason = pure (revoked_failed "Token does not have JTI claim")
  revoke_jti claims (some jti) revoked_by reason =
      branch (jti === "") (pure (revoked_failed "Token does not have JTI claim"))
        (do existing ← query (env.find_revoked jti); add_row claims jti revoked_by reason existing)

  revoke_claims : Bool → Option Claims → Option String → Option String → Eff S RevokeResult
  revoke_claims true (some claims) revoked_by reason =
      revoke_jti claims claims.jti revoked_by reason
  revoke_claims _ _ revoked_by reason = pure (revoked_failed "Invalid token")

  revoke_failure : Thrown → Eff S RevokeResult
  revoke_failure e = do
    count_metric (jwt_operation "revoke" "failure")
    pure (revoked_failed (message e))

  unfoldable pub revoke_token : String → Option String → Option String → Eff S RevokeResult
  unfolding expiry_of issue_time_of add_row revoke_jti revoke_claims revoke_failure
  revoke_token token revoked_by reason =
      try_catch (do r ← verify_jwt env token; revoke_claims r.valid r.claims revoked_by reason)
        revoke_failure

  unfoldable pub revoke_all_user_tokens : String → Eff S AccessResult
  revoke_all_user_tokens user_id =
      try_catch
        (do
          command (env.set_whitelisted user_id false)
          pure (record {
            success = true;
            message_text = "User access revoked. All tokens will be rejected on next use.";
          }))
        (λ e. pure (record { success = false; message_text = message e }))

  -- Fails closed: a check that throws counts as revoked.
  unfoldable pub is_token_revoked : String → Eff S Bool
  is_token_revoked jti =
      try_catch
        (do
          row ← query (env.find_revoked jti)
          count_metric (revocation_check "success" (if is_some row then "revoked" else "valid"))
          pure (is_some row))
        (λ e. do count_metric (revocation_check "failure" "error"); pure true)

  -- The days are counted back by 24 hours each: the process runs in a time zone with no change of
  -- the clock, such as UTC.
  unfoldable pub cleanup_expired_revoked_tokens : ℕ → Bool → Eff S ℕ
  cleanup_expired_revoked_tokens older_than_days dry_run = do
    t ← now
    let cutoff = t - older_than_days * day_ms
    branch dry_run (query (env.count_expired_before cutoff))
        (command (env.delete_expired_before cutoff))

  unfoldable pub get_revocation_status : String → Eff S (Option RevokedToken)
  get_revocation_status jti = query (env.find_revoked jti)
