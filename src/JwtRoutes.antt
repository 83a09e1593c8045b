-- ===== src/JwtRoutes.antt =====
-- src/routes/jwt.ts: the endpoints that refresh, issue and revoke tokens and tell their status. The
-- rate limiter and the validation of the request run before the handlers; the texts of the messages
-- are left out of a refusal, which keeps its status and its code.
pub mod Revoked
pub mod Issue
use af_auth.Base.{ℕ, String, Option, none, some, or_else, ◌===◌, if◌then◌else◌}
use af_auth.Base.Eff.{Result, ok, err, Thrown, message, Eff, pure, try_catch, branch, ◌>>=◌}
use af_auth.Config.Expiry.{calculate_jwt_expiration}
use af_auth.Env.{Env, RevokedToken}
use af_auth.Jwt.{generate_jwt, refresh_jwt}
use af_auth.Revocation.{RevokeResult, revoke_token, get_revocation_status}

pub record IssuedToken : Type 0 where
  pub token : String
  pub expires_in : String
  pub expires_at : ℕ

pub data JwtResponse : Type 0 where
  refusal : ℕ → String → JwtResponse
  issued : IssuedToken → JwtResponse
  revocation : Option String → JwtResponse
  revocation_failed : String → JwtResponse
  not_revoked : String → JwtResponse
  revoked : RevokedToken → JwtResponse
  public_key : String → JwtResponse
  jwks : String → JwtResponse

abbrev pub internal_error : JwtResponse
internal_error = refusal 500 "INTERNAL_ERROR"

-- The chain of tests of the refresh handler's inner `catch`.
abbrev pub refresh_refusal : String → JwtResponse
refresh_refusal what =
    if what === "EXPIRED_TOKEN"
    then refusal 401 "EXPIRED_TOKEN"
    else if what === "INVALID_TOKEN"
    then refusal 400 "INVALID_TOKEN"
    else if what === "TOKEN_REVOKED"
    then refusal 401 "TOKEN_REVOKED"
    else if what === "USER_NOT_FOUND"
    then refusal 404 "USER_NOT_FOUND"
    else if what === "WHITELIST_REVOKED"
    then refusal 403 "WHITELIST_REVOKED"
    else internal_error

abbrev pub issue_refusal : String → JwtResponse
issue_refusal what =
    if what === "User not found" then refusal 404 "USER_NOT_FOUND" else internal_error

abbrev pub status_response : String → Option RevokedToken → JwtResponse
status_response jti none = not_revoked jti
status_response jti (some row) = revoked row

module _ {S : Type 0} (env : Env S) where
  pub respond_issued : String → Eff S JwtResponse
  respond_issued token = do
    expires_at ← calculate_jwt_expiration env.config.jwt_expires_in
    pure (
        issued (record {
          token = token;
          expires_in = env.config.jwt_expires_in;
          expires_at = expires_at;
        }))

  -- POST /api/token. The outer `catch` only sees what the inner one throws, which is nothing.
  unfoldable pub refresh_route : String → Eff S JwtResponse
  unfolding respond_issued
  refresh_route token =
      try_catch (do new_token ← refresh_jwt env token; respond_issued new_token)
        (λ e. pure (refresh_refusal (message e)))

  -- GET /api/token
  unfoldable pub issue_route : String → Eff S JwtResponse
  unfolding respond_issued
  issue_route user_id =
      try_catch (do token ← generate_jwt env user_id; respond_issued token)
        (λ e. pure (issue_refusal (message e)))

  -- GET /api/jwks
  abbrev pub jwks_route : Eff S JwtResponse
  jwks_route = pure (public_key env.config.jwt_public_key)

  -- GET /.well-known/jwks.json; the constant fields are left out.
  abbrev pub jwks_json_route : Eff S JwtResponse
  jwks_json_route = pure (jwks env.config.jwt_public_key)

  abbrev revocation_response : RevokeResult → JwtResponse
  revocation_response r =
      if r.success
      then revocation r.jti
      else revocation_failed (or_else r.error_text "Failed to revoke token")

  -- POST /api/token/revoke
  unfoldable pub revoke_route : String → Option String → Option String → Eff S JwtResponse
  revoke_route token reason revoked_by =
      try_catch (do r ← revoke_token env token revoked_by reason; pure (revocation_response r))
        (λ e. pure internal_error)

  -- GET /api/token/revocation-status
  unfoldable pub revocation_status_route : String → Eff S JwtResponse
  revocation_status_route jti =
      try_catch (do row ← get_revocation_status env jti; pure (status_response jti row))
        (λ e. pure internal_error)
