-- ===== src/Tests/Settings.antt =====
-- The theorems on the settings, with the variables of the keys and one number set.
use af_auth.Base.{
  String, ◌≡◌, ◌≤◌, ℕ, refl, true, false, Option, none, some, ◌===◌, if◌then◌else◌, starts_with,
  length_utf16, All, parse_int, to_lower_case, show,
}
use af_auth.Base.Int.{pos}
use af_auth.Base.Eff.{ok}
use af_auth.Config.Expiry.{
  validate_jwt_expires_in, parse_jwt_expires_in_to_seconds, match_expiry, max_safe_integer,
}
use af_auth.Config.Secrets.{
  load_secrets, get_required_env, get_base64_decoded_key, validate_base64, includes, is_blank,
  ◌and_then◌,
}
use af_auth.Config.Settings.{
  Settings, get_optional_numeric_env, get_optional_boolean_env, load_threshold, load_redis,
  load_limits, load_limit, load_cookies, load_rotation,
}
use af_auth.Config.Settings.Load.{load_config, load_database_url, load_database, load_github}
use af_auth.Config.Settings.Numbers.{IsNumber, numbers, load_config-numbers}
use af_auth.Config.Settings.Bounds.{InRange, IsSameSite, load_config-IsInRange}
use af_auth.Tests.Secrets.{pem, long_key}

abbrev variables : String → Option String
variables name =
    if name === "REDIS_PORT"
    then some " 7000x"
    else if name === "COOKIE_SAME_SITE"
    then some "lax"
    else if name === "GITHUB_TOKEN_REFRESH_THRESHOLD_SECONDS"
    then some "300"
    else if name === "GITHUB_TOKEN_ENCRYPTION_KEY"
    then some long_key
    else if starts_with name "JWT_P"
    then some pem
    else if name === "GITHUB_APP_PRIVATE_KEY"
    then some pem
    else if name === "SESSION_SECRET"
    then some "s"
    else if name === "DATABASE_URL"
    then some "db:"
    else if starts_with name "GITHUB_TOKEN"
    then none
    else if starts_with name "GITHUB_"
    then some "g"
    else none

abbrev pub settings : Settings
settings = record {
  environment = "development";
  port = pos 3000;
  host = "0.0.0.0";
  base_url = "http://localhost:3000";
  secrets = record {
    jwt_private_key = pem;
    jwt_public_key = pem;
    github_token_encryption_key = long_key;
    jwt_expires_in = "30d";
  };
  database = record {
    url = "db:";
    pool_min = pos 2;
    pool_max = pos 10;
    connection_timeout = pos 5000;
    max_retries = pos 3;
    retry_delay = pos 1000;
    ssl_enabled = false;
    reject_unauthorized = true;
    ca = none;
    cert = none;
    key = none;
  };
  log_level = "info";
  log_pretty = true;
  github = record {
    app_id = "g";
    installation_id = "g";
    private_key = pem;
    client_id = "g";
    client_secret = "g";
    callback_url = "g";
    token_refresh_threshold_seconds = pos 300;
  };
  redis = record {
    host = "localhost";
    port = pos 7000;
    password = none;
    db = pos 0;
    connect_timeout = pos 5000;
    max_retries = pos 3;
    retry_delay = pos 1000;
    max_retries_per_request = pos 3;
    state_ttl_seconds = pos 600;
  };
  session_secret = "s";
  session_max_age = pos 600000;
  jwt_issuer = "http://localhost:3000";
  jwt_audience = "http://localhost:3000";
  jwt_clock_tolerance = pos 60;
  admin_contact_email = "admin@example.com";
  admin_contact_name = "Administrator";
  rate_limit = record {
    auth = record { window_ms = pos 900000; max_requests = pos 10 };
    jwt = record { window_ms = pos 900000; max_requests = pos 100 };
    github_token = record { window_ms = pos 3600000; max_requests = pos 1000 };
  };
  cookies = record { http_only = true; secure = false; same_site = "lax" };
  metrics = record {
    enabled = true;
    prefix = "af_auth_";
    namespace = "af_auth";
    collect_default_metrics = true;
    endpoint = "/metrics";
    auth_token = none;
  };
  rotation = record {
    jwt_key = pos 180;
    github_token_encryption_key = pos 90;
    service_api_key = pos 365;
  };
}

loads : load_config variables (λ s. s) (λ url. ok url) ≡ ok settings
unfolding load_config load_secrets get_required_env get_base64_decoded_key validate_base64 includes
    is_blank ◌and_then◌ starts_with length_utf16 validate_jwt_expires_in
    parse_jwt_expires_in_to_seconds match_expiry load_database_url load_database load_github
    load_threshold load_redis load_limits load_limit load_cookies load_rotation
    get_optional_numeric_env get_optional_boolean_env parse_int to_lower_case show
loads = refl

load_config-numbers_example : All (IsNumber variables) (numbers settings)
load_config-numbers_example = load_config-numbers variables (λ s. s) (λ url. ok url) settings loads

load_config-IsInRange_example :
    InRange (pos 300) 300 7200
    × ((n : ℕ) × (parse_jwt_expires_in_to_seconds "30d" ≡ ok n) × (60 ≤ n) × (n ≤ max_safe_integer))
    × (32 ≤ length_utf16 long_key)
    × (is_blank "s" ≡ false)
    × IsSameSite "lax"
load_config-IsInRange_example =
    load_config-IsInRange variables (λ s. s) (λ url. ok url) settings loads
