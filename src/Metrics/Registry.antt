-- ===== src/Metrics/Registry.antt =====
-- src/services/metrics.ts: the registry of prom-client and its collectors. prom-client is a parameter:
-- its objects live in a state `P`, a registry is known by a number, and a collector by its name and
-- the registry it was made for. Logging only prints.
pub mod Ready
pub mod Told
use af_auth.Base.{
  ℕ, String, Bool, true, false, Option, none, some, List, [], ◌∷◌, ◌+++◌, if◌then◌else◌, truthy,
  is_some, ◌&&◌, show, or_else, ◌-◌,
}
use af_auth.Base.Eff.{Result, ok, err, Thrown}
use af_auth.Config.Settings.{MetricsSettings}
use af_auth.Metrics.{MetricsState}

pub record Collector : Type 0 where
  pub name : String
  pub registry : ℕ

abbrev pub Labels : Type 0
Labels = List (String × String)

-- What a collector is told. A duration is in thousandths of a second.
pub data Change : Type 0 where
  inc : Labels → Change
  set : ℕ → Change
  observe : Labels → ℕ → Change

pub record Prom (P : Type 0) : Type 0 where
  pub new_registry : P → ℕ × P
  pub set_default_labels : ℕ → Labels → P → P
  pub collect_default_metrics : ℕ → String → P → Result (Unit {0}) × P
  pub new_collector : Collector → P → Result (Unit {0}) × P
  pub change : Collector → Change → P → Result (Unit {0}) × P
  pub metrics : ℕ → P → Result String
  pub clear : ℕ → P → P

-- The variables of the module.
pub record MetricsService (P : Type 0) : Type 0 where
  pub prom : P
  pub registry : Option ℕ
  pub github_oauth_counter : Option Collector
  pub jwt_operations_counter : Option Collector
  pub token_revocation_counter : Option Collector
  pub rate_limit_counter : Option Collector
  pub auth_failure_counter : Option Collector
  pub request_duration_histogram : Option Collector
  pub redis_connection_gauge : Option Collector

-- A call of one of the functions of the module, with its arguments.
pub data Call : Type 0 where
  initialize : Call
  record_github_oauth_operation : String → String → Call
  record_jwt_operation : String → String → Call
  record_token_revocation_check : String → String → Call
  record_rate_limit_hit : String → String → Call
  record_auth_failure : String → String → Call
  record_request_duration : String → String → ℕ → ℕ → Call
  update_redis_connection_status : Bool → Call
  reset : Call

abbrev pub start : {P : Type 0} → P → MetricsService P
start p = record {
  prom = p;
  registry = none;
  github_oauth_counter = none;
  jwt_operations_counter = none;
  token_revocation_counter = none;
  rate_limit_counter = none;
  auth_failure_counter = none;
  request_duration_histogram = none;
  redis_connection_gauge = none;
}

abbrev pub collector : String → ℕ → String → Collector
collector prefix id name = record { name = prefix +++ name; registry = id }

-- A statement that may throw.
abbrev pub Statement : Type 0 → Type 0
Statement P = MetricsService P → Result (Unit {0}) × MetricsService P

infixl 5 ◌and_also◌
unfoldable pub ◌and_also◌ : {P : Type 0} → Statement P → Statement P → Statement P
(f and_also g) s = let (r, s') = f s in elim r [ ok u ↦ g s' | err e ↦ (err e, s') ]

module _ {P : Type 0} (prom : Prom P) where
  -- `x = new Counter(...)`: a constructor that throws assigns nothing.
  abbrev pub assign :
      (Option Collector → MetricsService P → MetricsService P) → Collector → Statement P
  assign set_field c s =
      let (r, p) = prom.new_collector c s.prom in
      elim r [
        | ok u ↦ (ok tt, set_field (some c) (record s { prom = p }))
        | err e ↦ (err e, record s { prom = p })
      ]

module _ {P : Type 0} (prom : Prom P) (settings : MetricsSettings) (environment : String) where
  abbrev pub label_default : ℕ → Statement P
  label_default id s =
      if truthy (some settings.namespace)
      then (
        ok tt,
        record s {
          prom =
              prom.set_default_labels id
                (("app", settings.namespace) ∷ ("environment", environment) ∷ []) s.prom;
        },
      )
      else (ok tt, s)

  abbrev pub collect_default : ℕ → Statement P
  collect_default id s =
      if settings.collect_default_metrics
      then (let (r, p) = prom.collect_default_metrics id settings.prefix s.prom in
          (r, record s { prom = p }))
      else (ok tt, s)

  -- The body of the `try` behind the new registry.
  unfoldable pub create_collectors : ℕ → Statement P
  create_collectors id =
      let named = collector settings.prefix id in
      label_default id
      and_also collect_default id
      and_also assign prom (λ c s. record s { github_oauth_counter = c })
          (named "github_oauth_operations_total")
      and_also assign prom (λ c s. record s { jwt_operations_counter = c })
          (named "jwt_operations_total")
      and_also assign prom (λ c s. record s { token_revocation_counter = c })
          (named "token_revocation_checks_total")
      and_also assign prom (λ c s. record s { rate_limit_counter = c })
          (named "rate_limit_hits_total")
      and_also assign prom (λ c s. record s { auth_failure_counter = c })
          (named "auth_failures_total")
      and_also assign prom (λ c s. record s { request_duration_histogram = c })
          (named "http_request_duration_seconds")
      and_also assign prom (λ c s. record s { redis_connection_gauge = c })
          (named "redis_connection_status")

  -- Its `catch`.
  abbrev pub or_no_registry :
      Result (Unit {0}) × MetricsService P → Result (Unit {0}) × MetricsService P
  or_no_registry (ok u, s) = (ok tt, s)
  or_no_registry (err e, s) = (err e, record s { registry = none })

  unfoldable pub new_registry : Statement P
  new_registry s =
      let (id, p) = prom.new_registry s.prom in
      or_no_registry (create_collectors id (record s { prom = p; registry = some id }))

  unfoldable pub initialize_metrics : Statement P
  initialize_metrics s =
      if settings.enabled
      then (if is_some s.registry then (ok tt, s) else new_registry s)
      else (ok tt, s)

  -- `areMetricsEnabled`
  abbrev pub is_recording : MetricsService P → Bool
  is_recording s = is_some s.registry && settings.enabled

  -- What the recorders have in common; an error of the collector is only logged.
  abbrev pub tell : Option Collector → Change → MetricsService P → MetricsService P
  tell none change s = s
  tell (some c) change s = record s { prom = (prom.change c change s.prom).1 }

  abbrev recorder :
      (MetricsService P → Option Collector) → Change → MetricsService P → MetricsService P
  recorder field change s = if is_recording s then tell (field s) change s else s

  abbrev cleared : Option ℕ → P → P
  cleared none p = p
  cleared (some id) p = prom.clear id p

  -- `resetMetrics`
  abbrev pub reset_metrics : MetricsService P → MetricsService P
  reset_metrics s = start (cleared s.registry s.prom)

  -- The state after a call. `initializeMetrics` may throw as well.
  unfoldable pub call : Call → MetricsService P → MetricsService P
  call initialize s = (initialize_metrics s).1
  call (record_github_oauth_operation operation status) s =
      recorder (λ s. s.github_oauth_counter)
        (inc (("operation", operation) ∷ ("status", status) ∷ [])) s
  call (record_jwt_operation operation status) s =
      recorder (λ s. s.jwt_operations_counter)
        (inc (("operation", operation) ∷ ("status", status) ∷ [])) s
  call (record_token_revocation_check status result) s =
      recorder (λ s. s.token_revocation_counter)
        (inc (("status", status) ∷ ("result", result) ∷ [])) s
  call (record_rate_limit_hit endpoint action) s =
      recorder (λ s. s.rate_limit_counter) (inc (("endpoint", endpoint) ∷ ("action", action) ∷ []))
        s
  call (record_auth_failure type reason) s =
      recorder (λ s. s.auth_failure_counter) (inc (("type", type) ∷ ("reason", reason) ∷ [])) s
  call (record_request_duration method route status_code duration) s =
      recorder (λ s. s.request_duration_histogram)
        (observe (("method", method) ∷ ("route", route) ∷ ("status_code", show status_code) ∷ [])
          duration)
        s
  call (update_redis_connection_status connected) s =
      recorder (λ s. s.redis_connection_gauge) (set (if connected then 1 else 0)) s
  call reset s = reset_metrics s

  unfoldable pub calls : List Call → MetricsService P → MetricsService P
  calls [] s = s
  calls (c ∷ cs) s = calls cs (call c s)

  -- What the endpoint of src/routes/metrics.ts reads.
  abbrev pub metrics_state : MetricsService P → MetricsState
  metrics_state s = record {
    auth_token = settings.auth_token;
    enabled = settings.enabled;
    registry = elim s.registry [ none ↦ none | some id ↦ some (prom.metrics id s.prom) ];
  }

-- `metricsMiddleware`, when the response ends; times are those of the monotone clock, in milliseconds.
abbrev pub response_ended : String → Option String → String → ℕ → ℕ → ℕ → Call
response_ended method matched_route path status_code start end =
    record_request_duration method (or_else matched_route path) status_code (end - start)
