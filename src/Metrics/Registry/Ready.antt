-- ===== src/Metrics/Registry/Ready.antt =====
-- The collectors belong to the registry.
use af_auth.Base.{
  ℕ, String, ◌≡◌, inl, inr, refl, subst, Bool, true, false, Option, none, some, List, [], ◌∷◌,
  arith, Bool-cases, truthy, if◌then◌else◌, is_some,
}
use af_auth.Base.Eff.{Result, ok, err, Result-cases}
use af_auth.Config.Settings.{MetricsSettings}
use af_auth.Metrics.Registry.{
  Collector, Change, Prom, MetricsService, Call, initialize, record_github_oauth_operation,
  record_jwt_operation, record_token_revocation_check, record_rate_limit_hit, record_auth_failure,
  record_request_duration, update_redis_connection_status, reset, start, collector, Statement,
  ◌and_also◌, assign, label_default, collect_default, create_collectors, or_no_registry,
  new_registry, initialize_metrics, tell, call, calls,
}

module _ {P : Type 0} where
  -- All seven collectors are there, with their names, and were made for the registry `id`.
  abbrev pub HasCollectors : String → ℕ → MetricsService P → Type 0
  HasCollectors prefix id s =
      (s.github_oauth_counter ≡ some (collector prefix id "github_oauth_operations_total"))
      × (s.jwt_operations_counter ≡ some (collector prefix id "jwt_operations_total"))
      × (s.token_revocation_counter ≡ some (collector prefix id "token_revocation_checks_total"))
      × (s.rate_limit_counter ≡ some (collector prefix id "rate_limit_hits_total"))
      × (s.auth_failure_counter ≡ some (collector prefix id "auth_failures_total"))
      × (s.request_duration_histogram ≡ some (collector prefix id "http_request_duration_seconds"))
      × (s.redis_connection_gauge ≡ some (collector prefix id "redis_connection_status"))

  abbrev pub IsReady : String → MetricsService P → Type 0
  IsReady prefix s = (id : ℕ) → s.registry ≡ some id → HasCollectors prefix id s

module _ {P : Type 0} where
  -- `Q` holds of the state behind a statement that does not throw.
  abbrev Post : (MetricsService P → Type 0) → Result (Unit {0}) × MetricsService P → Type 0
  Post Q x = elim x.0 [ ok u ↦ Q x.1 | err e ↦ Unit ]

  Post-step :
      (Q R : MetricsService P → Type 0) (g : Statement P) (x : Result (Unit {0}) × MetricsService P)
      → Post Q x
      → ((t : MetricsService P) → Q t → Post R (g t))
      → Post R (elim x.0 [ ok u ↦ g x.1 | err e ↦ (err e, x.1) ])
  Post-step Q R g (ok u, t) h next = next t h
  Post-step Q R g (err e, t) h next = tt

  Post-and_also :
      (Q R : MetricsService P → Type 0) (f g : Statement P) (s : MetricsService P)
      → Post Q (f s)
      → ((t : MetricsService P) → Q t → Post R (g t))
      → Post R ((f and_also g) s)
  unfolding ◌and_also◌
  Post-and_also Q R f g s h next = Post-step Q R g (f s) h next

  Post-made :
      (set_field : Option Collector → MetricsService P → MetricsService P) (c : Collector)
      (s : MetricsService P) (Q : MetricsService P → Type 0) (x : Result (Unit {0}) × P)
      → ((p : P) → Q (set_field (some c) (record s { prom = p })))
      → Post Q (elim x.0 [
        | ok u ↦ (ok tt, set_field (some c) (record s { prom = x.1 }))
        | err e ↦ (err e, record s { prom = x.1 })
      ])
  Post-made set_field c s Q (ok u, p) h = h p
  Post-made set_field c s Q (err e, p) h = tt

  Post-assign :
      (Q R : MetricsService P → Type 0) (prom : Prom P) (f : Statement P)
      (set_field : Option Collector → MetricsService P → MetricsService P) (c : Collector)
      (s : MetricsService P)
      → Post Q (f s)
      → ((t : MetricsService P) (p : P) → Q t → R (set_field (some c) (record t { prom = p })))
      → Post R ((f and_also assign prom set_field c) s)
  Post-assign Q R prom f set_field c s h next =
      Post-and_also Q R f (assign prom set_field c) s h
        (λ t q. Post-made set_field c t R (prom.new_collector c t.prom) (λ p. next t p q))

module _ {P : Type 0} (prom : Prom P) (settings : MetricsSettings) (environment : String) where
  -- The states in the middle of `create_collectors`.
  abbrev Made0 : ℕ → MetricsService P → Type 0
  Made0 id s = (s.registry ≡ some id)

  abbrev Made1 : ℕ → MetricsService P → Type 0
  Made1 id s =
      Made0 id s
      × (s.github_oauth_counter
          ≡ some (collector settings.prefix id "github_oauth_operations_total"))

  abbrev Made2 : ℕ → MetricsService P → Type 0
  Made2 id s =
      Made1 id s
      × (s.jwt_operations_counter ≡ some (collector settings.prefix id "jwt_operations_total"))

  abbrev Made3 : ℕ → MetricsService P → Type 0
  Made3 id s =
      Made2 id s
      × (s.token_revocation_counter
          ≡ some (collector settings.prefix id "token_revocation_checks_total"))

  abbrev Made4 : ℕ → MetricsService P → Type 0
  Made4 id s =
      Made3 id s
      × (s.rate_limit_counter ≡ some (collector settings.prefix id "rate_limit_hits_total"))

  abbrev Made5 : ℕ → MetricsService P → Type 0
  Made5 id s =
      Made4 id s
      × (s.auth_failure_counter ≡ some (collector settings.prefix id "auth_failures_total"))

  abbrev Made6 : ℕ → MetricsService P → Type 0
  Made6 id s =
      Made5 id s
      × (s.request_duration_histogram
          ≡ some (collector settings.prefix id "http_request_duration_seconds"))

  abbrev Made7 : ℕ → MetricsService P → Type 0
  Made7 id s =
      Made6 id s
      × (s.redis_connection_gauge ≡ some (collector settings.prefix id "redis_connection_status"))

  label-Post :
      (id : ℕ) (s : MetricsService P)
      → Made0 id s
      → Post (Made0 id) (label_default prom settings environment id s)
  label-Post id s h = elim (Bool-cases (truthy (some settings.namespace))) [
    | inl e ↦ ground arith
    | inr e ↦ ground arith
  ]

  collect-Post :
      (id : ℕ) (s : MetricsService P)
      → Made0 id s
      → Post (Made0 id) (collect_default prom settings environment id s)
  collect-Post id s h = elim (Bool-cases settings.collect_default_metrics) [
    | inl e ↦ elim (Result-cases (prom.collect_default_metrics id settings.prefix s.prom).0) [
      | inl (u, r) ↦ ground arith
      | inr (x, r) ↦ ground arith
    ]
    | inr e ↦ ground arith
  ]

  create-Post :
      (id : ℕ) (s : MetricsService P)
      → Made0 id s
      → Post (Made7 id) (create_collectors prom settings environment id s)
  unfolding create_collectors
  create-Post id s h =
      let f0 : Statement P =
        label_default prom settings environment id
        and_also collect_default prom settings environment id in
      let made0 =
        Post-and_also (Made0 id) (Made0 id) (label_default prom settings environment id)
          (collect_default prom settings environment id) s (label-Post id s h) (collect-Post id) in
      let made1 =
        Post-assign (Made0 id) (Made1 id) prom f0
          (λ c (s : MetricsService P). record s { github_oauth_counter = c })
          (collector settings.prefix id "github_oauth_operations_total") s made0
          (λ t p q. (q, refl)) in
      let f1 : Statement P =
        f0
        and_also assign prom (λ c (s : MetricsService P). record s { github_oauth_counter = c })
            (collector settings.prefix id "github_oauth_operations_total") in
      let made2 =
        Post-assign (Made1 id) (Made2 id) prom f1
          (λ c (s : MetricsService P). record s { jwt_operations_counter = c })
          (collector settings.prefix id "jwt_operations_total") s made1 (λ t p q. (q, refl)) in
      let f2 : Statement P =
        f1
        and_also assign prom (λ c (s : MetricsService P). record s { jwt_operations_counter = c })
            (collector settings.prefix id "jwt_operations_total") in
      let made3 =
        Post-assign (Made2 id) (Made3 id) prom f2
          (λ c (s : MetricsService P). record s { token_revocation_counter = c })
          (collector settings.prefix id "token_revocation_checks_total") s made2
          (λ t p q. (q, refl)) in
      let f3 : Statement P =
        f2
        and_also assign prom (λ c (s : MetricsService P). record s { token_revocation_counter = c })
            (collector settings.prefix id "token_revocation_checks_total") in
      let made4 =
        Post-assign (Made3 id) (Made4 id) prom f3
          (λ c (s : MetricsService P). record s { rate_limit_counter = c })
          (collector settings.prefix id "rate_limit_hits_total") s made3 (λ t p q. (q, refl)) in
      let f4 : Statement P =
        f3
        and_also assign prom (λ c (s : MetricsService P). record s { rate_limit_counter = c })
            (collector settings.prefix id "rate_limit_hits_total") in
      let made5 =
        Post-assign (Made4 id) (Made5 id) prom f4
          (λ c (s : MetricsService P). record s { auth_failure_counter = c })
          (collector settings.prefix id "auth_failures_total") s made4 (λ t p q. (q, refl)) in
      let f5 : Statement P =
        f4
        and_also assign prom (λ c (s : MetricsService P). record s { auth_failure_counter = c })
            (collector settings.prefix id "auth_failures_total") in
      let made6 =
        Post-assign (Made5 id) (Made6 id) prom f5
          (λ c (s : MetricsService P). record s { request_duration_histogram = c })
          (collector settings.prefix id "http_request_duration_seconds") s made5
          (λ t p q. (q, refl)) in
      let f6 : Statement P =
        f5
        and_also assign prom
            (λ c (s : MetricsService P). record s { request_duration_histogram = c })
            (collector settings.prefix id "http_request_duration_seconds") in
      Post-assign (Made6 id) (Made7 id) prom f6
        (λ c (s : MetricsService P). record s { redis_connection_gauge = c })
        (collector settings.prefix id "redis_connection_status") s made6 (λ t p q. (q, refl))

  ended-IsReady :
      (id : ℕ) (x : Result (Unit {0}) × MetricsService P)
      → Post (Made7 id) x
      → IsReady settings.prefix (or_no_registry prom settings environment x).1
  ended-IsReady id (ok u, s) (((((((r, a), b), c), d), e), f), g) n h =
      let same : id ≡ n = ground arith in
      subst (λ n. HasCollectors settings.prefix n s) same (a, b, c, d, e, f, g)
  ended-IsReady id (err x, s) made n h = absurd (ground arith)

  either-IsReady :
      (b : Bool) (x y : Result (Unit {0}) × MetricsService P)
      → IsReady settings.prefix x.1
      → IsReady settings.prefix y.1
      → IsReady settings.prefix (if b then x else y).1
  either-IsReady true x y h k = h
  either-IsReady false x y h k = k

  initialize-IsReady :
      (s : MetricsService P)
      → IsReady settings.prefix s
      → IsReady settings.prefix (initialize_metrics prom settings environment s).1
  unfolding initialize_metrics new_registry
  initialize-IsReady s ready =
      let id = (prom.new_registry s.prom).0 in
      let made = record s { prom = (prom.new_registry s.prom).1; registry = some id } in
      let fresh =
        ended-IsReady id (create_collectors prom settings environment id made)
          (create-Post id made refl) in
      either-IsReady settings.enabled _ _ (either-IsReady (is_some s.registry) _ _ ready fresh)
        ready

  told-IsReady :
      (o : Option Collector) (change : Change) (s : MetricsService P)
      → IsReady settings.prefix s
      → IsReady settings.prefix (tell prom settings environment o change s)
  told-IsReady none change s ready = ready
  told-IsReady (some c) change s ready = ready

  recorder-IsReady :
      (b : Bool) (o : Option Collector) (change : Change) (s : MetricsService P)
      → IsReady settings.prefix s
      → IsReady settings.prefix (if b then tell prom settings environment o change s else s)
  recorder-IsReady true o change s ready = told-IsReady o change s ready
  recorder-IsReady false o change s ready = ready

  call-IsReady :
      (c : Call) (s : MetricsService P)
      → IsReady settings.prefix s
      → IsReady settings.prefix (call prom settings environment c s)
  unfolding call
  call-IsReady initialize s ready = initialize-IsReady s ready
  call-IsReady (record_github_oauth_operation a b) s ready = recorder-IsReady _ _ _ s ready
  call-IsReady (record_jwt_operation a b) s ready = recorder-IsReady _ _ _ s ready
  call-IsReady (record_token_revocation_check a b) s ready = recorder-IsReady _ _ _ s ready
  call-IsReady (record_rate_limit_hit a b) s ready = recorder-IsReady _ _ _ s ready
  call-IsReady (record_auth_failure a b) s ready = recorder-IsReady _ _ _ s ready
  call-IsReady (record_request_duration a b c d) s ready = recorder-IsReady _ _ _ s ready
  call-IsReady (update_redis_connection_status b) s ready = recorder-IsReady _ _ _ s ready
  call-IsReady reset s ready = λ n h. absurd (ground arith)

  calls_keep :
      (cs : List Call) (s : MetricsService P)
      → IsReady settings.prefix s
      → IsReady settings.prefix (calls prom settings environment cs s)
  unfolding calls
  calls_keep [] s ready = ready
  calls_keep (c ∷ cs) s ready =
      calls_keep cs (call prom settings environment c s) (call-IsReady c s ready)

  -- After any sequence of calls of the module's functions, from its start: if there is a registry, all
  -- seven collectors are there, under their names, and were made for this registry. That holds
  -- after an initialisation that threw, after a second one, and after a reset.
  pub calls-IsReady :
      (cs : List Call) (p : P)
      → IsReady settings.prefix (calls prom settings environment cs (start p))
  calls-IsReady cs p = calls_keep cs (start p) (λ n h. absurd (ground arith))
