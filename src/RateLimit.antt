-- ===== src/RateLimit.antt =====
-- src/middleware/rate-limit.ts: the limiters and what they tell the metrics. express-rate-limit, which
-- counts the requests of a window in its store, is a parameter. Logging only prints.
pub mod Hits
use af_auth.Base.{
  ℕ, String, Bool, true, false, Option, none, some, List, [], ◌∷◌, ◌===◌, ◌+++◌, ◌==◌, ◌&&◌,
  if◌then◌else◌,
}
use af_auth.Base.Int.{ℤ}
use af_auth.Base.Eff.{Result, ok, err}
use af_auth.Config.Settings.{RedisSettings, Limit, Limits, MetricsSettings}
use af_auth.Metrics.Registry.{MetricsService, Prom, Call, record_rate_limit_hit, call}
use af_auth.RedisClient.{Ioredis, RedisClient, get_redis_client, is_redis_connected}

-- Where the counts are kept: in Redis under a prefix, by a client, or in memory.
pub data Store : Type 0 where
  redis_store : ℕ → String → Store
  memory : Store

pub record LimiterOptions : Type 0 where
  pub window_ms : ℤ
  pub max_requests : ℤ
  pub key_prefix : String
  pub message : String

abbrev pub auth_options : Limits → LimiterOptions
auth_options l = record {
  window_ms = l.auth.window_ms;
  max_requests = l.auth.max_requests;
  key_prefix = "auth";
  message = "Too many authentication attempts. Please try again later.";
}

abbrev pub jwt_options : Limits → LimiterOptions
jwt_options l = record {
  window_ms = l.jwt.window_ms;
  max_requests = l.jwt.max_requests;
  key_prefix = "jwt";
  message = "Too many token requests. Please try again later.";
}

abbrev pub github_token_options : Limits → LimiterOptions
github_token_options l = record {
  window_ms = l.github_token.window_ms;
  max_requests = l.github_token.max_requests;
  key_prefix = "github-token";
  message = "Too many GitHub token requests. Please try again later.";
}

-- What express-rate-limit does with a request: it calls the handler or goes on.
pub data Verdict : Type 0 where
  exceeded : Verdict
  within : Verdict

-- The answer of the handler, or the call of `next`.
pub data Limited : Type 0 where
  too_many_requests : ℕ → String → Limited
  passed : Limited

-- The store, chosen once when the module is loaded.
abbrev pub choose_store :
    {Q : Type 0} → Ioredis Q → RedisSettings → LimiterOptions → RedisClient Q → Store
choose_store redis settings options c =
    let (r, c') = get_redis_client redis settings c in
    elim r [
      | err e ↦ memory
      | ok id ↦
          if is_redis_connected redis settings c' && redis.status id c'.outside === "ready"
          then redis_store id ("rate-limit:" +++ options.key_prefix +++ ":")
          else memory
    ]

module _ {P : Type 0} (prom : Prom P) (settings : MetricsSettings) (environment : String)
    (options : LimiterOptions) where
  abbrev hit : String → MetricsService P → MetricsService P
  hit action m = call prom settings environment (record_rate_limit_hit options.key_prefix action) m

  -- The middleware behind the verdict; `status` is that of the response when `next` is called.
  unfoldable pub limit : Verdict → ℕ → MetricsService P → Limited × MetricsService P
  limit exceeded status m = (too_many_requests 429 options.message, hit "blocked" m)
  limit within status m = (passed, (if status == 429 then m else hit "allowed" m))

  -- A sequence of requests, each with its verdict and the status so far.
  unfoldable pub limit_all : List (Verdict × ℕ) → MetricsService P → List Limited × MetricsService P
  limit_all [] m = ([], m)
  limit_all ((v, status) ∷ rest) m =
      let (answer, m') = limit v status m in
      let (answers, end) = limit_all rest m' in (answer ∷ answers, end)
