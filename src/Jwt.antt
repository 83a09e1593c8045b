-- ===== src/Jwt.antt =====
-- src/services/jwt.ts: signing, verifying, issuing and refreshing of the service's tokens. The keys
-- are read from the settings at each call: the source's cache of them never changes what is read.
-- Its logging, and the rotation check that the first signature starts and does not wait for, only
-- print.
pub mod Refresh
pub mod Roundtrip
use af_auth.Base.{
  ℕ, String, Bool, true, false, Option, none, some, ◌≡◌, refl, ◌⊎◌, inl, inr, ◌===◌, show,
  if◌then◌else◌,
}
use af_auth.Base.Eff.{
  Result, ok, err, error, message, Eff, pure, throw, lift, query, now, random_text, count_metric,
  Metric, jwt_operation, branch, ◌>>=◌, ◌>>◌,
}
use af_auth.Env.{
  Env, User, Payload, Claims, VerifyOptions, Verdict, verified, token_expired, json_web_token_error,
  unexpected,
}

-- `JWTVerifyResult`
pub record VerifyResult : Type 0 where
  pub valid : Bool
  pub claims : Option Claims
  pub error_text : Option String
  pub expired : Option Bool

abbrev pub accepted : Claims → VerifyResult
accepted c = record { valid = true; claims = some c; error_text = none; expired = none }

abbrev pub rejected : String → Bool → VerifyResult
rejected e x = record { valid = false; claims = none; error_text = some e; expired = some x }

-- The truth of a flag that may be missing.
abbrev pub is_true : Option Bool → Bool
is_true none = false
is_true (some b) = b

-- What the `try` and the `catch` of `verifyJWT` return, and the metric that they record.
abbrev pub outcome_of : Verdict → VerifyResult
outcome_of (verified c) = accepted c
outcome_of token_expired = rejected "Token has expired" true
outcome_of (json_web_token_error m) = rejected m false
outcome_of (unexpected e) = rejected "Invalid token" false

-- A verification ends with claims, or with a result that is not valid.
pub outcome_of-cases :
    (v : Verdict) → ((c : Claims) × (v ≡ verified c)) ⊎ ((outcome_of v).valid ≡ false)
outcome_of-cases (verified c) = inl (c, refl)
outcome_of-cases token_expired = inr refl
outcome_of-cases (json_web_token_error m) = inr refl
outcome_of-cases (unexpected e) = inr refl

abbrev pub validation_metric : Verdict → Metric
validation_metric (verified c) = jwt_operation "validate" "success"
validation_metric _ = jwt_operation "validate" "failure"

module _ {S : Type 0} (env : Env S) where
  abbrev pub verify_options : VerifyOptions
  verify_options = record {
    issuer = env.config.jwt_issuer;
    audience = env.config.jwt_audience;
    clock_tolerance = env.config.jwt_clock_tolerance;
  }

  -- `signJWT` of the claims `sub`, `githubId` and `jti`
  unfoldable pub sign_jwt : String → String → String → Eff S String
  sign_jwt sub github_id jti = do
    t ← now
    token ← lift (
        env.sign
          (record {
            sub = sub;
            github_id = github_id;
            jti = jti;
            iss = env.config.jwt_issuer;
            aud = env.config.jwt_audience;
          })
          env.config.jwt_private_key env.config.jwt_expires_in t)
    count_metric (jwt_operation "issue" "success")
    pure token

  unfoldable pub verify_jwt : String → Eff S VerifyResult
  verify_jwt token = do
    t ← now
    let verdict = env.verify token env.config.jwt_public_key verify_options t
    count_metric (validation_metric verdict)
    pure (outcome_of verdict)

  abbrev issue : Option User → Eff S String
  issue none = throw (error "User not found")
  issue (some user) = do jti ← random_text; sign_jwt user.id (show user.github_user_id) jti

  unfoldable pub generate_jwt : String → Eff S String
  generate_jwt user_id = do user ← query (env.find_user user_id); issue user

  -- The check of `claims.jti` against the revoked tokens.
  abbrev refuse_row : {R : Type 0} → Option R → Eff S (Unit {0})
  refuse_row none = pure tt
  refuse_row (some row) = throw (error "TOKEN_REVOKED")

  pub refuse_revoked : Option String → Eff S (Unit {0})
  refuse_revoked none = pure tt
  refuse_revoked (some jti) =
      branch (jti === "") (pure tt) (do row ← query (env.find_revoked jti); refuse_row row)

  refresh_user : Option User → Eff S String
  refresh_user none = throw (error "USER_NOT_FOUND")
  refresh_user (some user) =
      branch user.is_whitelisted (generate_jwt user.id) (throw (error "WHITELIST_REVOKED"))

  refresh_claims : Option Claims → Eff S String
  refresh_claims none = throw (error "INVALID_TOKEN")
  refresh_claims (some claims) = do
    refuse_revoked claims.jti
    user ← query (env.find_user claims.sub)
    refresh_user user

  refresh_result : VerifyResult → Eff S String
  refresh_result r =
      branch r.valid (refresh_claims r.claims)
        (branch (is_true r.expired) (throw (error "EXPIRED_TOKEN")) (throw (error "INVALID_TOKEN")))

  unfoldable pub refresh_jwt : String → Eff S String
  unfolding refuse_revoked refresh_user refresh_claims refresh_result
  refresh_jwt token = do r ← verify_jwt token; refresh_result r
