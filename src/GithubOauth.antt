-- ===== src/GithubOauth.antt =====
-- src/services/github-oauth.ts: the state tokens of the login, which Redis keeps and which are good
-- for one use, and the calls of GitHub. `executeRedisOperation` of src/services/redis-client.ts
-- stands here too. Logging only prints. The authorization URL is not modelled.
pub mod Single
pub mod Race
pub mod Tokens
use af_auth.Base.{
  ℕ, zero, suc, ◌+◌, ◌*◌, String, Bool, true, false, Option, none, some, List, [], ◌∷◌, truthy,
  ◌||◌, not, ◌+++◌, ltb, ◌==◌, ◌===◌, if◌then◌else◌,
}
use af_auth.Base.Int.{sub_ℕ, pos, ltb_ℤ, leb_ℤ}
use af_auth.Base.Eff.{
  Result, ok, err, error, message, Thrown, Eff, pure, throw, lift, query, command, try_catch,
  branch, now, random_text, count_metric, oauth_operation, ◌>>=◌, ◌>>◌,
}
use af_auth.Env.{
  Env, OauthState, RedisValue, null, text, number, RedisReply, TokenResponse, GithubUser,
}

-- `!getValue`
abbrev pub is_missing : RedisValue → Bool
is_missing null = true
is_missing (text s) = s === ""
is_missing (number n) = n == 0

-- `delResult === 0`
abbrev pub is_zero : RedisValue → Bool
is_zero (number n) = n == 0
is_zero _ = false

-- The text that `JSON.parse` is given: a number is written out, which no caller meets.
abbrev text_of : RedisValue → String
text_of (text s) = s
text_of _ = ""

-- What the two replies of the pipeline allow: the stored text is used only if it was read and if
-- this very call deleted it.
unfoldable pub usable : RedisReply → RedisReply → Option String
usable get_reply del_reply =
    if get_reply.failed || is_missing get_reply.value
    then none
    else if del_reply.failed || is_zero del_reply.value
    then none
    else some (text_of get_reply.value)

abbrev pub usable_of : Option (List RedisReply) → Option String
usable_of (some (g ∷ d ∷ _)) = usable g d
usable_of _ = none

-- `oauth:state:${state}`
abbrev pub state_key : String → String
state_key state = "oauth:state:" +++ state

module _ {S : Type 0} (env : Env S) where
  abbrev redis_failed : {A : Type 0} → Thrown → Eff S A
  redis_failed e = throw (error ("Redis operation failed: " +++ message e))

  -- A failure is thrown again as a `RedisOperationError`.
  abbrev pub execute_redis_operation : {A : Type 0} → Eff S A → Eff S A
  execute_redis_operation operation = try_catch operation redis_failed

  abbrev pub or_random : Option String → Eff S String
  or_random none = random_text
  or_random (some id) = branch (id === "") random_text (pure id)

  unfoldable pub generate_state : Option String → Eff S String
  generate_state request_id = do
    state ← random_text
    generated_request_id ← or_random request_id
    timestamp ← now
    execute_redis_operation (
        command (
          env.redis_setex (state_key state) env.config.state_ttl_seconds (
            env.to_json (record {
              state = state;
              timestamp = timestamp;
              request_id = generated_request_id;
            }))))
    pure state

  -- `Date.now() - data.timestamp > config.redis.stateTtlSeconds * 1000`
  pub check_age : OauthState → Eff S (Option OauthState)
  check_age d = do
    t ← now
    pure (
        if ltb_ℤ (pos (env.config.state_ttl_seconds * 1000)) (sub_ℕ t d.timestamp)
        then none
        else some d)

  pub read_state : Option String → Eff S (Option OauthState)
  read_state none = pure none
  read_state (some stored) = do d ← lift (env.from_json stored); check_age d

  unfoldable pub validate_state : String → Eff S (Option OauthState)
  unfolding check_age read_state
  validate_state state =
      try_catch
        (execute_redis_operation (do
          results ← command (env.redis_get_del (state_key state))
          read_state (usable_of results)))
        (λ e. pure none)

  -- Both POST calls end alike: a response without an access token throws inside the `try`, after a
  -- first count of the failure, and the `catch` counts it again.
  pub check_response : String → TokenResponse → Eff S TokenResponse
  check_response operation r =
      branch (truthy r.access_token) (do count_metric (oauth_operation operation "success"); pure r)
        (do
          count_metric (oauth_operation operation "failure")
          throw (error "No access token in GitHub response"))

  pub oauth_failed : {A : Type 0} → String → String → Thrown → Eff S A
  oauth_failed operation what e = do
    count_metric (oauth_operation operation "failure")
    throw (error what)

  unfoldable pub exchange_code_for_token : String → Eff S TokenResponse
  unfolding check_response oauth_failed
  exchange_code_for_token code =
      try_catch (do r ← command (env.github_exchange code); check_response "token_exchange" r)
        (oauth_failed "token_exchange" "Failed to exchange authorization code for token")

  unfoldable pub refresh_access_token : String → Eff S TokenResponse
  unfolding check_response oauth_failed
  refresh_access_token refresh_token =
      try_catch
        (do r ← command (env.github_refresh refresh_token); check_response "token_refresh" r)
        (oauth_failed "token_refresh" "Failed to refresh GitHub access token")

  unfoldable pub get_github_user : String → Eff S GithubUser
  unfolding oauth_failed
  get_github_user access_token =
      try_catch
        (do
          u ← query (env.github_user access_token)
          count_metric (oauth_operation "user_fetch" "success")
          pure u)
        (oauth_failed "user_fetch" "Failed to fetch GitHub user information")

-- A token without an expiry counts as not expiring. The difference is signed.
unfoldable pub is_token_expiring_soon : {S : Type 0} → Option ℕ → ℕ → Eff S Bool
is_token_expiring_soon none threshold_seconds = pure false
is_token_expiring_soon (some expires_at) threshold_seconds = do
  t ← now
  pure (leb_ℤ (sub_ℕ expires_at t) (pos (threshold_seconds * 1000)))

unfoldable pub calculate_token_expiration : {S : Type 0} → Option ℕ → Eff S (Option ℕ)
calculate_token_expiration none = pure none
calculate_token_expiration (some zero) = pure none
calculate_token_expiration (some (suc n)) = do t ← now; pure (some (t + suc n * 1000))
