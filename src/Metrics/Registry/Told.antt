-- ===== src/Metrics/Registry/Told.antt =====
-- Which collector a call of a recorder changes.
use af_auth.Base.{
  ℕ, String, ◌≡◌, inl, inr, subst, ap, Option, none, some, List, [], ◌∷◌, arith, Option-cases,
  Bool-cases, if◌then◌else◌, is_some, ◌&&◌, show,
}
use af_auth.Config.Settings.{MetricsSettings}
use af_auth.Metrics.Registry.{
  Collector, Change, inc, set, observe, Prom, MetricsService, Call, initialize,
  record_github_oauth_operation, record_jwt_operation, record_token_revocation_check,
  record_rate_limit_hit, record_auth_failure, record_request_duration,
  update_redis_connection_status, reset, start, collector, tell, call, calls,
}
use af_auth.Metrics.Registry.Ready.{IsReady, calls-IsReady}

-- The name of the collector and its change, for a call that records something.
abbrev pub Told : Type 0
Told = Option (String × Change)

abbrev pub told : Call → Told
told (record_github_oauth_operation operation status) =
    some ("github_oauth_operations_total", inc (("operation", operation) ∷ ("status", status) ∷ []))
told (record_jwt_operation operation status) =
    some ("jwt_operations_total", inc (("operation", operation) ∷ ("status", status) ∷ []))
told (record_token_revocation_check status result) =
    some ("token_revocation_checks_total", inc (("status", status) ∷ ("result", result) ∷ []))
told (record_rate_limit_hit endpoint action) =
    some ("rate_limit_hits_total", inc (("endpoint", endpoint) ∷ ("action", action) ∷ []))
told (record_auth_failure type reason) =
    some ("auth_failures_total", inc (("type", type) ∷ ("reason", reason) ∷ []))
told (record_request_duration method route status_code duration) = some (
  "http_request_duration_seconds",
  observe (("method", method) ∷ ("route", route) ∷ ("status_code", show status_code) ∷ []) duration,
)
told (update_redis_connection_status connected) =
    some ("redis_connection_status", set (if connected then 1 else 0))
told initialize = none
told reset = none

some_lem : {A : Type 0} {a b : A} → ◌≡◌ {A = Option A} (some a) (some b) → a ≡ b
some_lem {a} e = ap (λ o. elim o [ none ↦ a | some x ↦ x ]) e

module _ {P : Type 0} (prom : Prom P) (settings : MetricsSettings) (environment : String) where
  -- The change of the collector `name` of the current registry, if metrics are on.
  abbrev pub changed : String → Change → MetricsService P → MetricsService P
  changed name change s =
      if settings.enabled
      then (elim s.registry [
        | none ↦ s
        | some id ↦ record s {
          prom = (prom.change (collector settings.prefix id name) change s.prom).1;
        }
      ])
      else s

  recorder_lem :
      (o : Option Collector) (name : String) (change : Change) (s : MetricsService P)
      → ((id : ℕ) → s.registry ≡ some id → o ≡ some (collector settings.prefix id name))
      → (if is_some s.registry && settings.enabled
          then tell prom settings environment o change s
          else s)
        ≡ changed name change s
  recorder_lem o name change s h = elim (Option-cases s.registry) [
    | inl e ↦ elim (Bool-cases settings.enabled) [ inl f ↦ ground arith | inr f ↦ ground arith ]
    | inr (id, e) ↦
        let found = h id e in
        elim (Bool-cases settings.enabled) [ inl f ↦ ground arith | inr f ↦ ground arith ]
  ]

  same :
      (s x : MetricsService P) {a name : String} {b change : Change}
      → ◌≡◌ {A = Told} (some (a, b)) (some (name, change))
      → x ≡ changed a b s
      → x ≡ changed name change s
  same s x {a} {name} {b} {change} h e =
      subst (λ (t : String × Change). x ≡ changed t.0 t.1 s) (some_lem h) e

  told_ready :
      (s : MetricsService P) (c : Call) (name : String) (change : Change)
      → IsReady settings.prefix s
      → told c ≡ some (name, change)
      → call prom settings environment c s ≡ changed name change s
  unfolding call
  told_ready s (record_github_oauth_operation a b) name change ready h =
      same s (call prom settings environment (record_github_oauth_operation a b) s) h
        (recorder_lem _ _ _ s (λ id e. (ready id e).0))
  told_ready s (record_jwt_operation a b) name change ready h =
      same s (call prom settings environment (record_jwt_operation a b) s) h
        (recorder_lem _ _ _ s (λ id e. (ready id e).1))
  told_ready s (record_token_revocation_check a b) name change ready h =
      same s (call prom settings environment (record_token_revocation_check a b) s) h
        (recorder_lem _ _ _ s (λ id e. (ready id e).2))
  told_ready s (record_rate_limit_hit a b) name change ready h =
      same s (call prom settings environment (record_rate_limit_hit a b) s) h
        (recorder_lem _ _ _ s (λ id e. (ready id e).3))
  told_ready s (record_auth_failure a b) name change ready h =
      same s (call prom settings environment (record_auth_failure a b) s) h
        (recorder_lem _ _ _ s (λ id e. (ready id e).4))
  told_ready s (record_request_duration a b c d) name change ready h =
      same s (call prom settings environment (record_request_duration a b c d) s) h
        (recorder_lem _ _ _ s (λ id e. (ready id e).5))
  told_ready s (update_redis_connection_status b) name change ready h =
      same s (call prom settings environment (update_redis_connection_status b) s) h
        (recorder_lem _ _ _ s (λ id e. (ready id e).6))
  told_ready s initialize name change ready h = absurd (ground arith)
  told_ready s reset name change ready h = absurd (ground arith)

  -- After any sequence of calls, a call of a recorder changes nothing if metrics are off or there is no
  -- registry. Else it changes exactly the collector that its name says, of the current registry, by
  -- the labels or the value of the call, and no variable of the module.
  pub call-told :
      (cs : List Call) (p : P) (c : Call) (name : String) (change : Change)
      → told c ≡ some (name, change)
      → let s = calls prom settings environment cs (start p) in
        call prom settings environment c s ≡ changed name change s
  call-told cs p c name change h =
      told_ready (calls prom settings environment cs (start p)) c name change
        (calls-IsReady prom settings environment cs p) h
