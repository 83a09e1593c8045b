-- ===== src/Server.antt =====
-- src/server.ts: the endpoints that answer about the service itself, in its child the shutdown. The
-- other handlers are mounted from the files of src/routes.
pub mod Probes
pub mod Shutdown
use af_auth.Base.{ℕ, String, Bool, true, false, Option, none, some, ◌===◌, ◌+++◌, if◌then◌else◌}
use af_auth.Base.Eff.{Result, ok, err, Thrown, message, Eff, pure, try_catch, ◌>>=◌, ◌>>◌}
use af_auth.Env.{Config}
use af_auth.HealthCheck
use af_auth.HealthCheck.{
  HealthCheckResult, AppCheck, Readiness, is_unhealthy, perform_health_check,
  perform_readiness_check,
}

-- The status, with the body.
pub data Answer : Type 0 where
  health : ℕ → HealthCheckResult → Answer
  ready : ℕ → Answer
  not_ready : ℕ → Option String → Answer
  alive : ℕ → Answer
  failed : ℕ → String → String → Answer
  not_found : ℕ → String → String → Answer

abbrev pub status : Answer → ℕ
status (health n r) = n
status (ready n) = n
status (not_ready n why) = n
status (alive n) = n
status (failed n what why) = n
status (not_found n why path) = n

abbrev pub health_answer : HealthCheckResult → Answer
health_answer r = health (if is_unhealthy r.status then 503 else 200) r

abbrev pub ready_answer : Readiness → Answer
ready_answer q = if q.ready then ready 200 else not_ready 503 q.reason

module _ {S : Type 0} (config : Config) (probes : HealthCheck.Probes S) where
  -- `GET /health`; the cache of the GitHub App's check goes in and comes out.
  unfoldable pub health_route : Option AppCheck → Eff S (Answer × Option AppCheck)
  health_route cache =
      try_catch (do r ← perform_health_check config probes cache; pure (health_answer r.0, r.1))
        (λ e. pure (failed 503 "Health check failed" (message e), cache))

  -- `GET /ready`
  unfoldable pub ready_route : Eff S Answer
  ready_route =
      try_catch (do q ← perform_readiness_check config probes; pure (ready_answer q))
        (λ e. pure (failed 503 "Readiness check failed" (message e)))

-- `GET /live`
abbrev pub live_route : Answer
live_route = alive 200

-- The handler behind all routes.
abbrev pub not_found_route : String → String → Answer
not_found_route method path = not_found 404 ("Cannot " +++ method +++ " " +++ path) path

-- The handler of errors: outside development the message is not shown.
abbrev pub error_route : String → String → Answer
error_route environment message =
    failed 500 "Internal Server Error"
      (if environment === "development" then message else "An unexpected error occurred")

-- `start`: the exit code, if the program does not go on with listening.
unfoldable pub start : {S : Type 0} → Eff S (Unit {0}) → Eff S (Unit {0}) → Eff S (Option ℕ)
start connect listen = try_catch (do connect; listen; pure none) (λ e. pure (some 1))
