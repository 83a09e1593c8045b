-- ===== src/Config/Settings.antt =====
-- src/config/index.ts: all settings, read from the environment when the program starts. A number may
-- be negative. `setSearchParams` of a URL, which throws if the text is none, is a parameter.
pub mod Load
pub mod Parts
pub mod Numbers
pub mod Bounds
use af_auth.Base.{
  ℕ, String, Bool, true, false, not, Option, none, some, List, [], ◌∷◌, any, ◌===◌, ◌+++◌, ltb,
  if◌then◌else◌, truthy, or_else, or_null, parse_int, to_lower_case, show_ℤ,
}
use af_auth.Base.Int.{ℤ, pos, negsuc, ltb_ℤ}
use af_auth.Base.Eff.{Result, ok, err, error}
use af_auth.Config.Secrets.{
  Secrets, ◌and_then◌, get_required_env, get_optional_env, get_base64_decoded_key, load_secrets,
}

pub record DatabaseSettings : Type 0 where
  pub url : String
  pub pool_min : ℤ
  pub pool_max : ℤ
  pub connection_timeout : ℤ
  pub max_retries : ℤ
  pub retry_delay : ℤ
  pub ssl_enabled : Bool
  pub reject_unauthorized : Bool
  pub ca : Option String
  pub cert : Option String
  pub key : Option String

pub record GithubSettings : Type 0 where
  pub app_id : String
  pub installation_id : String
  pub private_key : String
  pub client_id : String
  pub client_secret : String
  pub callback_url : String
  pub token_refresh_threshold_seconds : ℤ

pub record RedisSettings : Type 0 where
  pub host : String
  pub port : ℤ
  pub password : Option String
  pub db : ℤ
  pub connect_timeout : ℤ
  pub max_retries : ℤ
  pub retry_delay : ℤ
  pub max_retries_per_request : ℤ
  pub state_ttl_seconds : ℤ

pub record Limit : Type 0 where
  pub window_ms : ℤ
  pub max_requests : ℤ

pub record Limits : Type 0 where
  pub auth : Limit
  pub jwt : Limit
  pub github_token : Limit

pub record CookieSettings : Type 0 where
  pub http_only : Bool
  pub secure : Bool
  pub same_site : String

pub record MetricsSettings : Type 0 where
  pub enabled : Bool
  pub prefix : String
  pub namespace : String
  pub collect_default_metrics : Bool
  pub endpoint : String
  pub auth_token : Option String

pub record RotationSettings : Type 0 where
  pub jwt_key : ℤ
  pub github_token_encryption_key : ℤ
  pub service_api_key : ℤ

-- `config`, with the keys of `github` and `jwt` in `secrets`.
pub record Settings : Type 0 where
  pub environment : String
  pub port : ℤ
  pub host : String
  pub base_url : String
  pub secrets : Secrets
  pub database : DatabaseSettings
  pub log_level : String
  pub log_pretty : Bool
  pub github : GithubSettings
  pub redis : RedisSettings
  pub session_secret : String
  pub session_max_age : ℤ
  pub jwt_issuer : String
  pub jwt_audience : String
  pub jwt_clock_tolerance : ℤ
  pub admin_contact_email : String
  pub admin_contact_name : String
  pub rate_limit : Limits
  pub cookies : CookieSettings
  pub metrics : MetricsSettings
  pub rotation : RotationSettings

abbrev out_of_range : ℤ → Result ℤ
out_of_range threshold = err (
    error (
      "GITHUB_TOKEN_REFRESH_THRESHOLD_SECONDS must be between 300 and 7200 seconds (got "
      +++ show_ℤ threshold
      +++ ")"))

-- The check of `tokenRefreshThresholdSeconds`.
abbrev pub in_range : ℤ → Result ℤ
in_range threshold =
    if ltb_ℤ threshold (pos 300)
    then out_of_range threshold
    else if ltb_ℤ (pos 7200) threshold
    then out_of_range threshold
    else ok threshold

abbrev pub checked_same_site : String → Result String
checked_same_site value =
    if any (λ v. v === value) ("strict" ∷ "lax" ∷ "none" ∷ [])
    then ok value
    else err (
        error (
          "Invalid COOKIE_SAME_SITE value: \"" +++ value
          +++ "\". Must be 'strict', 'lax', or 'none'."))

module _ (env : String → Option String) where
  -- `getOptionalNumericEnv`
  unfoldable pub get_optional_numeric_env : String → ℤ → Result ℤ
  get_optional_numeric_env key default_value = elim (env key) [
    | none ↦ ok default_value
    | some value ↦
        if truthy (some value)
        then (elim (parse_int value) [
          | none ↦ err (error ("Environment variable " +++ key +++ " must be a valid number"))
          | some parsed ↦ ok parsed
        ])
        else ok default_value
  ]

  -- `getOptionalBooleanEnv`
  unfoldable pub get_optional_boolean_env : String → Bool → Bool
  get_optional_boolean_env key default_value = elim (env key) [
    | none ↦ default_value
    | some value ↦ if truthy (some value) then to_lower_case value === "true" else default_value
  ]

  -- `process.env.NODE_ENV === 'production'`
  abbrev pub is_production : Bool
  is_production = elim (env "NODE_ENV") [ none ↦ false | some v ↦ v === "production" ]

  -- The function that makes `tokenRefreshThresholdSeconds`.
  unfoldable pub load_threshold : Result ℤ
  load_threshold =
      get_optional_numeric_env "GITHUB_TOKEN_REFRESH_THRESHOLD_SECONDS" (pos 3600) and_then in_range

  unfoldable pub load_cookies : Result CookieSettings
  load_cookies = checked_same_site (get_optional_env env "COOKIE_SAME_SITE" "strict") and_then λ v.
      ok (record {
        http_only = get_optional_boolean_env "COOKIE_HTTP_ONLY" true;
        secure = get_optional_boolean_env "COOKIE_SECURE" is_production;
        same_site = v;
      })

  unfoldable pub load_redis : Result RedisSettings
  load_redis = get_optional_numeric_env "REDIS_PORT" (pos 6379) and_then λ port.
      get_optional_numeric_env "REDIS_DB" (pos 0) and_then λ db.
      get_optional_numeric_env "REDIS_CONNECT_TIMEOUT_MS" (pos 5000) and_then λ connect_timeout.
      get_optional_numeric_env "REDIS_MAX_RETRIES" (pos 3) and_then λ max_retries.
      get_optional_numeric_env "REDIS_RETRY_DELAY_MS" (pos 1000) and_then λ retry_delay.
      get_optional_numeric_env "REDIS_MAX_RETRIES_PER_REQUEST" (pos 3) and_then λ per_request.
      get_optional_numeric_env "REDIS_STATE_TTL_SECONDS" (pos 600) and_then λ ttl. ok (record {
        host = get_optional_env env "REDIS_HOST" "localhost";
        port = port;
        password = or_null (env "REDIS_PASSWORD");
        db = db;
        connect_timeout = connect_timeout;
        max_retries = max_retries;
        retry_delay = retry_delay;
        max_retries_per_request = per_request;
        state_ttl_seconds = ttl;
      })

  unfoldable pub load_limit : String → String → ℤ → ℤ → Result Limit
  load_limit window_name max_name default_window default_max =
      get_optional_numeric_env window_name default_window and_then λ window.
      get_optional_numeric_env max_name default_max and_then λ max.
      ok (record { window_ms = window; max_requests = max })

  unfoldable pub load_limits : Result Limits
  load_limits =
      load_limit "RATE_LIMIT_AUTH_WINDOW_MS" "RATE_LIMIT_AUTH_MAX" (pos 900000) (pos 10)
      and_then λ a.
          load_limit "RATE_LIMIT_JWT_WINDOW_MS" "RATE_LIMIT_JWT_MAX" (pos 900000) (pos 100)
          and_then λ j.
              load_limit "RATE_LIMIT_GITHUB_TOKEN_WINDOW_MS" "RATE_LIMIT_GITHUB_TOKEN_MAX"
                (pos 3600000) (pos 1000)
              and_then λ g. ok (record { auth = a; jwt = j; github_token = g })

  unfoldable pub load_rotation : Result RotationSettings
  load_rotation = get_optional_numeric_env "JWT_KEY_ROTATION_INTERVAL_DAYS" (pos 180) and_then λ a.
      get_optional_numeric_env "GITHUB_TOKEN_ENCRYPTION_KEY_ROTATION_INTERVAL_DAYS" (pos 90)
      and_then λ b.
          get_optional_numeric_env "SERVICE_API_KEY_ROTATION_INTERVAL_DAYS" (pos 365) and_then λ c.
          ok (record { jwt_key = a; github_token_encryption_key = b; service_api_key = c })

  abbrev pub load_metrics : MetricsSettings
  load_metrics = record {
    enabled = get_optional_boolean_env "METRICS_ENABLED" true;
    prefix = get_optional_env env "METRICS_PREFIX" "af_auth_";
    namespace = get_optional_env env "METRICS_NAMESPACE" "af_auth";
    collect_default_metrics = get_optional_boolean_env "METRICS_COLLECT_DEFAULT" true;
    endpoint = get_optional_env env "METRICS_ENDPOINT" "/metrics";
    auth_token = or_null (env "METRICS_AUTH_TOKEN");
  }
