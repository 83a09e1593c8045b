-- ===== src/AuthRoutes.antt =====
-- src/routes/auth.ts: the endpoints that begin a login and take GitHub's callback. A page is the
-- component with what the handler puts into it; its markup, the headers and the text of the
-- authorization URL, which is made of the settings and the state, are left out. The rate limiter runs
-- before the handlers, and logging only prints.
pub mod SignIn
pub mod Callback
use af_auth.Base.{ℕ, String, Bool, true, false, Option, none, some, or_else, or_null, not, ◌===◌}
use af_auth.Base.Eff.{
  Result, ok, err, Thrown, Eff, pure, query, command, try_catch, branch, now, count_metric,
  auth_failure, oauth_operation, ◌>>=◌, ◌>>◌,
}
use af_auth.Env.{Env, User, TokenColumns, NewUser, GithubUser, OauthState, TokenResponse}
use af_auth.Encryption.{encrypt_github_token}
use af_auth.GithubOauth.{
  generate_state, validate_state, exchange_code_for_token, get_github_user,
  calculate_token_expiration,
}
use af_auth.Jwt.{generate_jwt}

-- A parameter of the query: it may be missing, a text, or given several times, which is no text.
pub data QueryValue : Type 0 where
  absent : QueryValue
  one : String → QueryValue
  several : QueryValue

-- The truth of a parameter.
abbrev pub given : QueryValue → Bool
given absent = false
given (one s) = not (s === "")
given several = true

pub record CallbackQuery : Type 0 where
  pub code : QueryValue
  pub state : QueryValue
  pub error : QueryValue

pub data Page : Type 0 where
  login_page : String → Page
  error_page : ℕ → String → Page
  token_ready : String → String → Option String → Page
  unauthorized : Page

module _ {S : Type 0} (env : Env S) where
  -- GET /auth/github
  unfoldable pub authorize_route : Eff S Page
  authorize_route =
      try_catch
        (do
          state ← generate_state env none
          count_metric (oauth_operation "authorize" "success")
          pure (login_page state))
        (λ e. do
          count_metric (oauth_operation "authorize" "failure")
          pure (error_page 500 "Authentication Error"))

  abbrev pub fail : String → ℕ → String → Eff S Page
  fail reason status title = do
    count_metric (auth_failure "oauth" reason)
    pure (error_page status title)

  -- A token that cannot be issued is left out of the page.
  pub issue_or_none : String → Eff S (Option String)
  issue_or_none user_id =
      try_catch (do token ← generate_jwt env user_id; pure (some token)) (λ e. pure none)

  unfoldable pub show_result : User → String → Eff S Page
  unfolding issue_or_none
  show_result user login =
      branch user.is_whitelisted
        (do token ← issue_or_none user.id; pure (token_ready user.id login token))
        (do count_metric (auth_failure "whitelist" "not_whitelisted"); pure unauthorized)

  -- A new user is not whitelisted; an existing one only gets the new tokens.
  abbrev pub new_user : ℕ → TokenColumns → NewUser
  new_user github_user_id columns = record {
    github_user_id = github_user_id;
    columns = columns;
    is_whitelisted = false;
  }

  unfoldable pub store_user : GithubUser → TokenColumns → Eff S User
  store_user github_user columns = do
    t ← now
    command (env.upsert_user github_user.id columns t (new_user github_user.id columns))

  -- The callback once GitHub has said who signs in.
  unfoldable pub complete_sign_in : TokenResponse → GithubUser → Eff S Page
  unfolding store_user show_result
  complete_sign_in response github_user = do
    expires_at ← calculate_token_expiration response.expires_in
    access_token ← encrypt_github_token env response.access_token
    refresh_token ← encrypt_github_token env (or_null response.refresh_token)
    user ← store_user github_user (record {
      access_token = access_token;
      refresh_token = refresh_token;
      expires_at = expires_at;
    })
    show_result user github_user.login

  -- The callback once its state was accepted.
  unfoldable pub sign_in : String → Eff S Page
  unfolding complete_sign_in
  sign_in code = do
    response ← exchange_code_for_token env code
    github_user ← get_github_user env (or_else response.access_token "")
    complete_sign_in response github_user

  unfoldable pub accept_state : String → Option OauthState → Eff S Page
  accept_state code none = fail "invalid_state" 400 "Security Error"
  accept_state code (some data_of_state) = sign_in code

  unfoldable pub with_state : String → QueryValue → Eff S Page
  with_state code (one state) =
      branch (state === "") (fail "missing_state" 400 "Invalid Request")
        (do found ← validate_state env state; accept_state code found)
  with_state code _ = fail "missing_state" 400 "Invalid Request"

  unfoldable pub with_code : QueryValue → QueryValue → Eff S Page
  with_code (one code) state =
      branch (code === "") (fail "missing_code" 400 "Invalid Request") (with_state code state)
  with_code _ state = fail "missing_code" 400 "Invalid Request"

  -- GET /auth/github/callback
  unfoldable pub callback_route : CallbackQuery → Eff S Page
  callback_route q =
      try_catch
        (branch (given q.error) (fail "github_oauth_error" 400 "Authentication Failed")
          (with_code q.code q.state))
        (λ e. fail "callback_processing_error" 500 "Authentication Error")
