-- ===== src/Config/Settings/Load.antt =====
-- src/config/index.ts: the statements that make `config`, in their order.
use af_auth.Base.{String, Bool, true, not, Option, none, some, ◌+++◌, if◌then◌else◌, truthy, show_ℤ}
use af_auth.Base.Int.{ℤ, pos}
use af_auth.Base.Eff.{Result, ok}
use af_auth.Config.Secrets.{
  ◌and_then◌, get_required_env, get_optional_env, get_base64_decoded_key, load_secrets,
}
use af_auth.Config.Settings.{
  DatabaseSettings, GithubSettings, Settings, get_optional_numeric_env, get_optional_boolean_env,
  is_production, load_threshold, load_cookies, load_redis, load_limits, load_rotation, load_metrics,
}

module _ (env : String → Option String) (base64_decode : String → String)
    (require_ssl : String → Result String) where
  abbrev decoded : Option String → Option String
  decoded none = none
  decoded (some v) = if truthy (some v) then some (base64_decode v) else none

  abbrev pub ssl_enabled : Bool
  ssl_enabled = get_optional_boolean_env env "DB_SSL_ENABLED" (is_production env)

  -- `require_ssl` parses the URL and sets its parameter `sslmode`.
  unfoldable pub load_database_url : Result String
  load_database_url = get_required_env env "DATABASE_URL" and_then λ url.
      if ssl_enabled then require_ssl url else ok url

  unfoldable pub load_database : String → Result DatabaseSettings
  load_database url = get_optional_numeric_env env "DB_POOL_MIN" (pos 2) and_then λ pool_min.
      get_optional_numeric_env env "DB_POOL_MAX" (pos 10) and_then λ pool_max.
      get_optional_numeric_env env "DB_CONNECTION_TIMEOUT_MS" (pos 5000) and_then λ timeout.
      get_optional_numeric_env env "DB_MAX_RETRIES" (pos 3) and_then λ max_retries.
      get_optional_numeric_env env "DB_RETRY_DELAY_MS" (pos 1000) and_then λ retry_delay.
      ok (record {
        url = url;
        pool_min = pool_min;
        pool_max = pool_max;
        connection_timeout = timeout;
        max_retries = max_retries;
        retry_delay = retry_delay;
        ssl_enabled = ssl_enabled;
        reject_unauthorized = get_optional_boolean_env env "DB_SSL_REJECT_UNAUTHORIZED" true;
        ca = decoded (env "DB_SSL_CA");
        cert = decoded (env "DB_SSL_CERT");
        key = decoded (env "DB_SSL_KEY");
      })

  unfoldable pub load_github : String → Result GithubSettings
  load_github base_url = get_required_env env "GITHUB_APP_ID" and_then λ app_id.
      get_required_env env "GITHUB_INSTALLATION_ID" and_then λ installation_id.
      get_required_env env "GITHUB_APP_PRIVATE_KEY" and_then λ encoded.
      get_base64_decoded_key base64_decode encoded "GITHUB_APP_PRIVATE_KEY" and_then λ private_key.
      get_required_env env "GITHUB_CLIENT_ID" and_then λ client_id.
      get_required_env env "GITHUB_CLIENT_SECRET" and_then λ client_secret.
      load_threshold env and_then λ threshold. ok (record {
        app_id = app_id;
        installation_id = installation_id;
        private_key = private_key;
        client_id = client_id;
        client_secret = client_secret;
        callback_url =
            get_optional_env env "GITHUB_CALLBACK_URL" (base_url +++ "/auth/github/callback");
        token_refresh_threshold_seconds = threshold;
      })

  abbrev base_url_at : ℤ → String
  base_url_at port = get_optional_env env "BASE_URL" ("http://localhost:" +++ show_ℤ port)

  unfoldable pub load_config : Result Settings
  load_config = get_optional_numeric_env env "PORT" (pos 3000) and_then λ port.
      load_secrets env base64_decode and_then λ secrets. load_database_url and_then λ url.
      load_database url and_then λ database. load_github (base_url_at port) and_then λ github.
      load_redis env and_then λ redis.
      get_required_env env "SESSION_SECRET" and_then λ session_secret.
      get_optional_numeric_env env "SESSION_MAX_AGE_MS" (pos 600000) and_then λ session_max_age.
      get_optional_numeric_env env "JWT_CLOCK_TOLERANCE_SECONDS" (pos 60) and_then λ tolerance.
      load_limits env and_then λ rate_limit. load_cookies env and_then λ cookies.
      load_rotation env and_then λ rotation. ok (record {
        environment = get_optional_env env "NODE_ENV" "development";
        port = port;
        host = get_optional_env env "HOST" "0.0.0.0";
        base_url = base_url_at port;
        secrets = secrets;
        database = database;
        log_level = get_optional_env env "LOG_LEVEL" "info";
        log_pretty = get_optional_boolean_env env "LOG_PRETTY" (not (is_production env));
        github = github;
        redis = redis;
        session_secret = session_secret;
        session_max_age = session_max_age;
        jwt_issuer = get_optional_env env "JWT_ISSUER" (base_url_at port);
        jwt_audience = get_optional_env env "JWT_AUDIENCE" (base_url_at port);
        jwt_clock_tolerance = tolerance;
        admin_contact_email = get_optional_env env "ADMIN_CONTACT_EMAIL" "admin@example.com";
        admin_contact_name = get_optional_env env "ADMIN_CONTACT_NAME" "Administrator";
        rate_limit = rate_limit;
        cookies = cookies;
        metrics = load_metrics env;
        rotation = rotation;
      })
