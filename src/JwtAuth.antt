-- ===== src/JwtAuth.antt =====
-- src/middleware/jwt-auth.ts: the two middlewares that authenticate a request. A middleware answers
-- the request itself, or calls `next` with the principal attached. What `next` runs is outside: a
-- throw of it would be caught by the middleware's own `catch`.
pub mod Admission
pub mod Relation
pub mod Issued
use af_auth.Base.{
  ℕ, String, Bool, true, false, Option, none, some, starts_with, substring_from, ◌===◌,
}
use af_auth.Base.Eff.{
  Result, ok, err, Thrown, Eff, pure, query, try_catch, branch, count_metric, auth_failure, ◌>>=◌,
  ◌>>◌,
}
use af_auth.Env.{Env, User, Claims}
use af_auth.Jwt.{VerifyResult, verify_jwt, is_true}
use af_auth.Revocation.{is_token_revoked}

-- `req.user`
pub record Principal : Type 0 where
  pub sub : String
  pub github_id : String
  pub jti : Option String

-- `res.status(code).json({ error, message })`, or `next()`.
pub data Outcome : Type 0 where
  denied : ℕ → String → String → Outcome
  next : Principal → Outcome

abbrev pub principal_of : Claims → Principal
principal_of c = record { sub = c.sub; github_id = c.github_id; jti = c.jti }

module _ {S : Type 0} (env : Env S) where
  abbrev failing : String → String → Outcome → Eff S Outcome
  failing scope reason o = do count_metric (auth_failure scope reason); pure o

  -- The check of the `jti` claim, the same in both middlewares but for the metric.
  pub check_revoked : Option String → Eff S Outcome → Eff S Outcome → Eff S Outcome
  check_revoked none refusal pass = pass
  check_revoked (some jti) refusal pass =
      branch (jti === "") pass (do revoked ← is_token_revoked env jti; branch revoked refusal pass)

  pub admit_user : Claims → Option User → Eff S Outcome
  admit_user claims none =
      failing "jwt" "user_not_found" (denied 404 "USER_NOT_FOUND" "User not found")
  admit_user claims (some user) = branch user.is_whitelisted (pure (next (principal_of claims))) (
      failing "whitelist" "whitelist_revoked"
        (denied 403 "WHITELIST_REVOKED" "Access has been revoked"))

  abbrev pub refuse : Eff S Outcome
  refuse = failing "jwt" "token_revoked" (denied 401 "TOKEN_REVOKED" "This token has been revoked")

  abbrev pub look_up : Claims → Eff S Outcome
  look_up claims = do user ← query (env.find_user claims.sub); admit_user claims user

  pub admit_claims : Option Claims → Eff S Outcome
  admit_claims none =
      failing "jwt" "invalid_claims" (denied 401 "INVALID_TOKEN" "Invalid token claims")
  admit_claims (some claims) = check_revoked claims.jti refuse (look_up claims)

  pub admit_result : VerifyResult → Eff S Outcome
  admit_result r = branch r.valid (admit_claims r.claims) (
      branch (is_true r.expired)
        (failing "jwt" "token_expired" (denied 401 "EXPIRED_TOKEN" "Token has expired"))
        (failing "jwt" "invalid_token" (denied 401 "INVALID_TOKEN" "Invalid token")))

  abbrev pub internal_error : Thrown → Eff S Outcome
  internal_error e = pure (denied 500 "INTERNAL_ERROR" "Authentication error")

  abbrev missing_header : Eff S Outcome
  missing_header =
      failing "jwt" "missing_auth_header"
        (denied 401 "UNAUTHORIZED" "Missing or invalid authorization header")

  unfoldable pub verify_jwt_middleware : Option String → Eff S Outcome
  unfolding check_revoked admit_user admit_claims admit_result
  verify_jwt_middleware none = try_catch missing_header internal_error
  verify_jwt_middleware (some header) =
      try_catch
        (branch (starts_with header "Bearer ")
          (do r ← verify_jwt env (substring_from 7 header); admit_result r) missing_header)
        internal_error

  -- The second middleware records no metrics and does not look the user up.
  pub lax_claims : Option Claims → Eff S Outcome
  lax_claims none = pure (denied 401 "INVALID_TOKEN" "Invalid token claims")
  lax_claims (some claims) =
      check_revoked claims.jti (pure (denied 401 "TOKEN_REVOKED" "This token has been revoked"))
        (pure (next (principal_of claims)))

  pub lax_result : VerifyResult → Eff S Outcome
  lax_result r = branch r.valid (lax_claims r.claims) (
      branch (is_true r.expired) (pure (denied 401 "EXPIRED_TOKEN" "Token has expired"))
        (pure (denied 401 "INVALID_TOKEN" "Invalid token")))

  abbrev lax_missing_header : Eff S Outcome
  lax_missing_header = pure (denied 401 "UNAUTHORIZED" "Missing or invalid authorization header")

  unfoldable pub verify_jwt_without_whitelist_check : Option String → Eff S Outcome
  unfolding check_revoked lax_claims lax_result
  verify_jwt_without_whitelist_check none = try_catch lax_missing_header internal_error
  verify_jwt_without_whitelist_check (some header) =
      try_catch
        (branch (starts_with header "Bearer ")
          (do r ← verify_jwt env (substring_from 7 header); lax_result r) lax_missing_header)
        internal_error
