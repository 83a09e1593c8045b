-- ===== src/GithubToken.antt =====
-- src/routes/github-token.ts: POST /api/github-token hands a user's GitHub token to an authenticated
-- service, and refreshes it first when it is about to expire. The rate limiter and the validation of
-- the body run before the handler (see Validation). Logging only prints.
pub mod Header
pub mod Refresh
pub mod Renewal
pub mod Race
pub mod Access
use af_auth.Base.{
  ℕ, zero, suc, String, Bool, true, false, not, Option, none, some, ◌&&◌, ◌||◌, truthy, or_else,
  show, decimal, starts_with, substring_from, split_first, ◌===◌, ◌+++◌, ltb, if◌then◌else◌,
}
use af_auth.Base.Eff.{
  Result, ok, err, error, Thrown, World, Eff, pure, throw, lift, query, command, try_catch, branch,
  now, ◌>>=◌, ◌>>◌,
}
use af_auth.Env.{Env, User, TokenColumns, TokenResponse}
use af_auth.ServiceRegistry.{
  ServiceEntry, AuthResult, authenticated, refused, authenticate_service, log_service_access,
}
use af_auth.Encryption.{encrypt_github_token, decrypt_github_token}
use af_auth.GithubOauth.{refresh_access_token, is_token_expiring_soon, calculate_token_expiration}

pub record Credentials : Type 0 where
  pub service_identifier : String
  pub api_key : String

-- `firstColonIndex > 0 && firstColonIndex < length - 1`: something stands on both sides of the
-- first colon.
unfoldable pub split_credentials : String → Option Credentials
split_credentials text = elim (split_first b':' text) [
  | none ↦ none
  | some (identifier, key) ↦
      if identifier === "" || key === ""
      then none
      else some (record { service_identifier = identifier; api_key = key })
]

-- The request, as the handler reads it.
pub record TokenRequest : Type 0 where
  pub authorization : Option String
  pub user_id : Option String
  pub github_user_id : Option String
  pub ip : Option String
  pub user_agent : Option String

pub record TokenAnswer : Type 0 where
  pub token : String
  pub expires_at : Option ℕ
  pub user_id : String
  pub github_user_id : String
  pub is_whitelisted : Bool

-- The response: a refusal with its status and code, or the token.
pub data Answer : Type 0 where
  refusal : ℕ → String → Answer
  answer : TokenAnswer → Answer

-- What the transaction returns.
pub record Refreshed : Type 0 where
  pub access_token : Option String
  pub refresh_token : Option String
  pub expires_at : Option ℕ
  pub was_refreshed : Bool

module _ {S : Type 0} (env : Env S) where
  -- A pair of missing values is `none`.
  unfoldable pub extract_service_credentials : Option String → Option Credentials
  extract_service_credentials none = none
  extract_service_credentials (some header) =
      if starts_with header "Bearer "
      then split_credentials (substring_from 7 header)
      else if starts_with header "Basic "
      then split_credentials (env.base64_decode (substring_from 6 header))
      else none

  -- `prisma.$transaction(body)`: a throw of the body, or of the commit, undoes what it wrote.
  commit_result : {A : Type 0} → S → Result A → Eff S A
  commit_result before (err e) w = (err e, record w { db = env.rollback before w.db })
  commit_result before (ok a) w = elim (env.commit w.db).0 [
    | ok u ↦ (ok a, record w { db = (env.commit w.db).1 })
    | err e ↦ (err e, record w { db = env.rollback before (env.commit w.db).1 })
  ]

  unfoldable pub transaction : {A : Type 0} → Eff S A → Eff S A
  unfolding commit_result
  transaction body w = let (r, w') = body w in commit_result w.db r w'

  -- The refresh token that is stored: a new one if GitHub sent one, else the old one as it was.
  pub next_refresh_token : Option String → String → Eff S (Option String)
  next_refresh_token fresh old =
      branch (truthy fresh) (encrypt_github_token env fresh) (pure (some old))

  pub or_throw : Option String → String → Eff S String
  or_throw none what = throw (error what)
  or_throw (some s) what = branch (s === "") (throw (error what)) (pure s)

  abbrev pub written : User → Refreshed
  written u = record {
    access_token = u.github_access_token;
    refresh_token = u.github_refresh_token;
    expires_at = u.github_token_expires_at;
    was_refreshed = true;
  }

  -- What is stored of GitHub's answer, for a user whose refresh token was `stored`.
  unfoldable pub store_renewed : String → String → TokenResponse → Eff S Refreshed
  unfolding or_throw next_refresh_token
  store_renewed user_id stored response = do
    expires_at ← calculate_token_expiration response.expires_in
    encrypted ← encrypt_github_token env response.access_token
    refresh_token ← next_refresh_token response.refresh_token stored
    access_token ← or_throw encrypted "Failed to encrypt new access token"
    updated ← command (
        env.update_user_tokens user_id (record {
          access_token = some access_token;
          refresh_token = refresh_token;
          expires_at = expires_at;
        }))
    pure (written updated)

  -- The exchange of the stored refresh token, inside the transaction.
  unfoldable pub renew : String → String → Eff S Refreshed
  unfolding or_throw store_renewed
  renew user_id stored = do
    decrypted ← decrypt_github_token env (some stored)
    plain ← or_throw decrypted "Refresh token decryption failed"
    response ← refresh_access_token env plain
    store_renewed user_id stored response

  -- A token that another request has refreshed meanwhile is used as it stands.
  pub refresh_stored : String → User → Option String → Eff S Refreshed
  refresh_stored user_id u none = throw (error "User or refresh token not found in transaction")
  refresh_stored user_id u (some stored) =
      branch (stored === "") (throw (error "User or refresh token not found in transaction")) (do
        expiring ←
            is_token_expiring_soon u.github_token_expires_at
              env.config.token_refresh_threshold_seconds
        branch expiring (renew user_id stored) (
            pure (record {
              access_token = u.github_access_token;
              refresh_token = u.github_refresh_token;
              expires_at = u.github_token_expires_at;
              was_refreshed = false;
            })))

  unfoldable pub refresh_found : String → Option User → Eff S Refreshed
  refresh_found user_id none = throw (error "User or refresh token not found in transaction")
  refresh_found user_id (some u) = refresh_stored user_id u u.github_refresh_token

  unfoldable pub refresh_in_transaction : String → Eff S Refreshed
  unfolding renew refresh_stored refresh_found transaction
  refresh_in_transaction user_id =
      transaction (do u ← query (env.find_user user_id); refresh_found user_id u)

  -- `logServiceAccess` with the action of this endpoint.
  abbrev pub audit : TokenRequest → String → String → Bool → Option String → Eff S (Unit {0})
  audit req service_id user_id success error_message =
      log_service_access env service_id user_id "retrieve_github_token" success
        (record { error_message = error_message; ip_address = req.ip; user_agent = req.user_agent })

  abbrev refuse_access : TokenRequest → String → String → String → ℕ → String → Eff S Answer
  refuse_access req service_id user_id what status code = do
    audit req service_id user_id false (some what)
    pure (refusal status code)

  -- The token to hand out, still encrypted, with its expiry; an error where the handler refuses.
  -- After a failed refresh it is the existing token, unless it has expired.
  pub keep_or_refuse : String → Option ℕ → Eff S (Result (String × Option ℕ))
  keep_or_refuse access none = pure (ok (access, none))
  keep_or_refuse access (some expires_at) = do
    t ← now
    pure (
        if ltb expires_at t
        then err (error "TOKEN_REFRESH_FAILED")
        else ok (access, some expires_at))

  -- What the handler takes over from the transaction.
  abbrev pub adopt : String → Option ℕ → Refreshed → Result (String × Option ℕ)
  adopt access expires_at r =
      if truthy r.access_token
      then ok (or_else r.access_token access, r.expires_at)
      else ok (access, expires_at)

  pub refresh_or_keep : User → String → Eff S (Result (String × Option ℕ))
  unfolding keep_or_refuse
  refresh_or_keep user access =
      try_catch
        (do r ← refresh_in_transaction user.id; pure (adopt access user.github_token_expires_at r))
        (λ e. keep_or_refuse access user.github_token_expires_at)

  unfoldable pub choose_token : User → String → Eff S (Result (String × Option ℕ))
  unfolding refresh_or_keep
  choose_token user access = do
    expiring ←
        is_token_expiring_soon user.github_token_expires_at
          env.config.token_refresh_threshold_seconds
    branch (expiring && truthy user.github_refresh_token) (refresh_or_keep user access)
        (pure (ok (access, user.github_token_expires_at)))

  unfoldable pub answer_with : User → Option ℕ → Option String → Answer
  answer_with user expires_at decrypted =
      if truthy decrypted
      then answer (record {
        token = or_else decrypted "";
        expires_at = expires_at;
        user_id = user.id;
        github_user_id = show user.github_user_id;
        is_whitelisted = user.is_whitelisted;
      })
      else refusal 500 "DECRYPTION_FAILED"

  unfoldable pub hand_out : User → Result (String × Option ℕ) → Eff S Answer
  unfolding answer_with
  hand_out user (err e) = pure (refusal 503 "TOKEN_REFRESH_FAILED")
  hand_out user (ok (access, expires_at)) = do
    decrypted ← decrypt_github_token env (some access)
    pure (answer_with user expires_at decrypted)

  unfoldable pub serve_token : TokenRequest → String → User → String → Eff S Answer
  serve_token req service_id user access = do
    audit req service_id user.id true none
    choice ← choose_token user access
    hand_out user choice

  unfoldable pub serve_user : TokenRequest → String → String → Option User → Eff S Answer
  serve_user req service_id named none =
      refuse_access req service_id named "User not found" 404 "USER_NOT_FOUND"
  serve_user req service_id named (some user) =
      branch user.is_whitelisted
        (branch (truthy user.github_access_token)
          (serve_token req service_id user (or_else user.github_access_token ""))
          (refuse_access req service_id user.id "No GitHub token available" 404
            "TOKEN_NOT_AVAILABLE"))
        (refuse_access req service_id user.id "User not whitelisted" 403 "USER_NOT_WHITELISTED")

  -- The lookup by either identifier. `BigInt` reads the digits that the validation has let through.
  abbrev pub find_target : TokenRequest → S → Result (Option User)
  find_target req s =
      if truthy req.user_id
      then env.find_user (or_else req.user_id "") s
      else env.find_user_by_github_id (decimal (or_else req.github_user_id "")) s

  unfoldable pub serve_service : TokenRequest → AuthResult → Eff S Answer
  serve_service req (refused reason) = pure (refusal 401 "UNAUTHORIZED")
  serve_service req (authenticated service) =
      branch (truthy req.user_id || truthy req.github_user_id)
        (do
          user ← query (find_target req)
          serve_user req service.id
              (or_else req.user_id ("github:" +++ or_else req.github_user_id "")) user)
        (refuse_access req service.id "unknown" "Missing user identifier" 400
          "MISSING_USER_IDENTIFIER")

  unfoldable pub serve_credentials : TokenRequest → Option Credentials → Eff S Answer
  serve_credentials req none = pure (refusal 401 "UNAUTHORIZED")
  serve_credentials req (some c) = do
    auth ← authenticate_service env c.service_identifier c.api_key
    serve_service req auth

  unfoldable pub github_token_handler : TokenRequest → Eff S Answer
  github_token_handler req =
      try_catch (serve_credentials req (extract_service_credentials req.authorization))
        (λ e. pure (refusal 500 "INTERNAL_ERROR"))
