-- ===== src/HealthCheck.antt =====
-- src/services/health-check.ts: the state of each component, and what the health and the readiness
-- endpoints make of them. The `details` of a component, which nothing reads, are left out, and so
-- are the time stamps and the uptime of the answer. The checks of one request run in parallel; only
-- that of the GitHub App changes anything, its own cache, so the order does not matter.
pub mod Reads
pub mod Status
pub mod AppCache
use af_auth.Base.{
  ℕ, ◌+◌, String, Bool, true, false, not, Option, none, some, List, [], ◌∷◌, ◌++◌, ◌+++◌, ◌&&◌,
  ◌||◌, truthy, leb, ltb, any, all, length_utf16, ◌===◌, if◌then◌else◌,
}
use af_auth.Base.Eff.{
  Result, ok, err, message, Eff, pure, query, now, try_catch, branch, ◌>>=◌, ◌>>◌,
}
use af_auth.Env.{Config}

pub data HealthStatus : Type 0 where
  healthy unhealthy degraded : HealthStatus

abbrev pub is_healthy : HealthStatus → Bool
is_healthy healthy = true
is_healthy _ = false

abbrev pub is_unhealthy : HealthStatus → Bool
is_unhealthy unhealthy = true
is_unhealthy _ = false

abbrev pub is_degraded : HealthStatus → Bool
is_degraded degraded = true
is_degraded _ = false

pub record ComponentHealth : Type 0 where
  pub status : HealthStatus
  pub message_text : Option String

abbrev pub fine : ComponentHealth
fine = record { status = healthy; message_text = none }

abbrev pub failing : String → ComponentHealth
failing m = record { status = unhealthy; message_text = some m }

-- What the checks ask of the other parts: the settings that only they read, the database's and
-- Redis's clients, the registry of the metrics, and a signature with the GitHub App's key.
pub record Probes (S : Type 0) : Type 0 where
  pub production : Bool
  pub ssl_enabled : Bool
  pub metrics_enabled : Bool
  pub app_id : Option String
  pub app_private_key : Option String
  pub app_installation_id : Option String
  pub database : S → Result Bool
  pub redis_connected : S → Result Bool
  pub redis_ping : S → Result String
  pub metrics_initialized : S → Result Bool
  pub metrics_registry : S → Result Bool
  pub metrics_output : S → Result String
  pub sign_test : ℕ → ℕ → S → Result String

-- `githubAppCheckCache`
pub record AppCheck : Type 0 where
  pub status : HealthStatus
  pub timestamp : ℕ
  pub message_text : Option String

pub record Components : Type 0 where
  pub database : ComponentHealth
  pub redis : ComponentHealth
  pub encryption : ComponentHealth
  pub github_app : ComponentHealth
  pub metrics : ComponentHealth

pub record HealthCheckResult : Type 0 where
  pub status : HealthStatus
  pub components : Components

pub record Readiness : Type 0 where
  pub ready : Bool
  pub reason : Option String

-- The overall status: of the critical components, and of those that only degrade it.
unfoldable pub overall_status : List HealthStatus → List HealthStatus → HealthStatus
overall_status critical others =
    if any is_unhealthy critical
    then unhealthy
    else if any is_degraded critical || any (λ s. is_degraded s || is_unhealthy s) others
    then degraded
    else healthy

-- `list.join(', ')`
abbrev pub join_names : List String → String
join_names [] = ""
join_names (x ∷ []) = x
join_names (x ∷ y ∷ rest) = x +++ ", " +++ join_names (y ∷ rest)

-- The name of a component that is not healthy.
abbrev pub named : String → HealthStatus → List String
named name s = if is_healthy s then [] else name ∷ []

unfoldable pub unhealthy_names : Bool → Components → List String
unhealthy_names metrics_enabled c =
    named "database" c.database.status
    ++ named "redis" c.redis.status
    ++ named "encryption" c.encryption.status
    ++ (if metrics_enabled then named "metrics" c.metrics.status else [])

module _ {S : Type 0} (config : Config) (probes : Probes S) where
  database_status : Bool → ComponentHealth
  database_status connected =
      if connected
      then (if probes.production && not probes.ssl_enabled
          then record { status = degraded; message_text = some "Database SSL is not enabled" }
          else fine)
      else failing "Database is not responding"

  unfoldable pub check_database_health : Eff S ComponentHealth
  unfolding database_status
  check_database_health =
      try_catch (do connected ← query probes.database; pure (database_status connected))
        (λ e. pure (failing (message e)))

  ping_status : Eff S ComponentHealth
  ping_status = do
    answer ← query probes.redis_ping
    pure (if answer === "PONG" then fine else failing "Redis PING failed")

  unfoldable pub check_redis_health : Eff S ComponentHealth
  unfolding ping_status
  check_redis_health =
      try_catch
        (do
          connected ← query probes.redis_connected
          branch connected ping_status (pure (failing "Redis is not connected")))
        (λ e. pure (failing (message e)))

  -- Nothing in this check can throw.
  unfoldable pub check_encryption_health : Eff S ComponentHealth
  check_encryption_health = pure (
      if config.token_encryption_key === ""
      then failing "Encryption key not configured"
      else if ltb (length_utf16 config.token_encryption_key) 32
      then failing "Encryption key too short"
      else if config.jwt_private_key === "" || config.jwt_public_key === ""
      then failing "JWT keys not configured"
      else fine)

  output_status : Eff S ComponentHealth
  output_status =
      try_catch
        (do
          output ← query probes.metrics_output
          pure (
              if output === ""
              then failing "Metrics collection failed - no data available"
              else fine))
        (λ e. pure (failing "Failed to retrieve metrics"))

  registry_status : Eff S ComponentHealth
  registry_status = do
    found ← query probes.metrics_registry
    branch found output_status (pure (failing "Inconsistent metrics state"))

  enabled_status : Eff S ComponentHealth
  enabled_status = do
    initialized ← query probes.metrics_initialized
    branch initialized registry_status (pure (failing "Metrics registry not initialized"))

  unfoldable pub check_metrics_health : Eff S ComponentHealth
  unfolding output_status registry_status enabled_status
  check_metrics_health =
      try_catch
        (branch probes.metrics_enabled enabled_status
          (pure (record { status = healthy; message_text = some "Metrics disabled" })))
        (λ e. pure (failing (message e)))

  abbrev pub remembered : ComponentHealth → ℕ → ComponentHealth × Option AppCheck
  remembered h t =
      (h, some (record { status = h.status; timestamp = t; message_text = h.message_text }))

  -- The test signature reads the clock twice, in seconds.
  sign_status : ℕ → Eff S (ComponentHealth × Option AppCheck)
  sign_status t =
      try_catch
        (do
          issued ← now
          expires ← now
          query (probes.sign_test issued expires)
          pure (remembered fine t))
        (λ e. pure (remembered (failing "GitHub App private key invalid") t))

  fresh_app_status : ℕ → Eff S (ComponentHealth × Option AppCheck)
  fresh_app_status t =
      branch
        (truthy probes.app_id && truthy probes.app_private_key && truthy probes.app_installation_id)
        (sign_status t) (pure (remembered (failing "GitHub App configuration incomplete") t))

  abbrev pub app_cache_ttl_ms : ℕ
  app_cache_ttl_ms = 60000

  cached_app_status : ℕ → Option AppCheck → Eff S (ComponentHealth × Option AppCheck)
  cached_app_status t none = fresh_app_status t
  cached_app_status t (some c) =
      branch (ltb t (c.timestamp + app_cache_ttl_ms))
        (pure (record { status = c.status; message_text = c.message_text }, some c))
        (fresh_app_status t)

  -- The cache goes in and comes out. `now - timestamp < TTL` is written as a sum, since the
  -- difference may be negative. What the outer `catch` could see is caught by the inner one.
  unfoldable pub check_github_app_health :
      Option AppCheck → Eff S (ComponentHealth × Option AppCheck)
  unfolding sign_status fresh_app_status cached_app_status
  check_github_app_health cache = do t ← now; cached_app_status t cache

  abbrev pub result_of : Components → HealthCheckResult
  result_of c = record {
    status =
        overall_status (c.database.status ∷ c.redis.status ∷ c.encryption.status ∷ [])
          (c.github_app.status ∷ (if probes.metrics_enabled then c.metrics.status ∷ [] else []));
    components = c;
  }

  unfoldable pub perform_health_check :
      Option AppCheck → Eff S (HealthCheckResult × Option AppCheck)
  perform_health_check cache = do
    database ← check_database_health
    redis ← check_redis_health
    encryption ← check_encryption_health
    app ← check_github_app_health cache
    metrics ← check_metrics_health
    pure (
      result_of (record {
        database = database;
        redis = redis;
        encryption = encryption;
        github_app = app.0;
        metrics = metrics;
      }),
      app.1,
    )

  -- `every(h => h.status === HEALTHY)`, and the reason where that fails.
  abbrev pub readiness_of : Components → Readiness
  readiness_of c =
      if all is_healthy (
        c.database.status
        ∷ c.redis.status
        ∷ c.encryption.status
        ∷ (if probes.metrics_enabled then c.metrics.status ∷ [] else []))
      then record { ready = true; reason = none }
      else record {
        ready = false;
        reason =
            some
              ("Unhealthy components: " +++ join_names (unhealthy_names probes.metrics_enabled c));
      }

  -- The GitHub App is not asked; its place is filled with a healthy one, which nothing reads.
  unfoldable pub perform_readiness_check : Eff S Readiness
  perform_readiness_check = do
    database ← check_database_health
    redis ← check_redis_health
    encryption ← check_encryption_health
    metrics ← check_metrics_health
    pure (
        readiness_of (record {
          database = database;
          redis = redis;
          encryption = encryption;
          github_app = fine;
          metrics = metrics;
        }))
