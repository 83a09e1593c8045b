-- ===== src/HealthCheck/Status.antt =====
-- What the two endpoints make of the states of the components.
use af_auth.Base.{
  ◌≡◌, ◌≢◌, ◌↔◌, refl, Bool, true, false, Option, List, [], ◌∷◌, arith, ◌⊎◌, inl, inr, Bool-cases,
  any, All, ◌||◌, if◌then◌else◌,
}
use af_auth.Base.Eff.{ok, World, Eff}
use af_auth.Env.{Config}
use af_auth.HealthCheck.{
  HealthStatus, healthy, unhealthy, degraded, is_unhealthy, is_degraded, fine, ComponentHealth,
  Probes, AppCheck, Components, HealthCheckResult, Readiness, overall_status, check_database_health,
  check_redis_health, check_encryption_health, check_metrics_health, result_of, readiness_of,
  perform_health_check, perform_readiness_check,
}
use af_auth.HealthCheck.Reads.{
  database_Reads, redis_Reads, encryption_Reads, metrics_Reads, app_total,
}

status_cases : (s : HealthStatus) → (s ≡ healthy) ⊎ ((s ≡ unhealthy) ⊎ (s ≡ degraded))
status_cases healthy = inl refl
status_cases unhealthy = inr (inl refl)
status_cases degraded = inr (inr refl)

abbrev bad : HealthStatus → Bool
bad s = is_degraded s || is_unhealthy s

good_others : (l : List HealthStatus) → (any bad l ≡ false) ↔ All (λ s. s ≡ healthy) l
good_others [] = ((λ h. tt), λ a. refl)
good_others (healthy ∷ l) = let i = good_others l in ((λ h. (refl, i.0 h)), λ (e, a). i.1 a)
good_others (unhealthy ∷ l) = ((λ h. absurd (ground arith)), λ (e, a). absurd (ground arith))
good_others (degraded ∷ l) = ((λ h. absurd (ground arith)), λ (e, a). absurd (ground arith))

good_critical :
    (l : List HealthStatus)
    → ((any is_unhealthy l ≡ false) × (any is_degraded l ≡ false)) ↔ All (λ s. s ≡ healthy) l
good_critical [] = ((λ h. tt), λ a. (refl, refl))
good_critical (healthy ∷ l) = let i = good_critical l in ((λ h. (refl, i.0 h)), λ (e, a). i.1 a)
good_critical (unhealthy ∷ l) = ((λ h. absurd (ground arith)), λ (e, a). absurd (ground arith))
good_critical (degraded ∷ l) = ((λ h. absurd (ground arith)), λ (e, a). absurd (ground arith))

-- The overall status is unhealthy exactly when a critical component is, and healthy exactly when
-- every critical and every other component is; so it is degraded in all other cases.
pub overall_status_iff :
    (critical others : List HealthStatus)
    → ((overall_status critical others ≡ unhealthy) ↔ (any is_unhealthy critical ≡ true))
      × ((overall_status critical others ≡ healthy)
          ↔ (All (λ s. s ≡ healthy) critical × All (λ s. s ≡ healthy) others))
unfolding overall_status
overall_status_iff critical others = (
  (ground arith, ground arith),
  (
    (λ h. (
      (good_critical critical).0 (ground arith, ground arith),
      (good_others others).0 (ground arith),
    )),
    λ (a, b). ground (arith, (good_critical critical).1 a, (good_others others).1 b),
  ),
)

module _ {S : Type 0} (config : Config) (probes : Probes S) where
  -- The components, as both endpoints find them in one state of the outside.
  abbrev components_at : S → ComponentHealth → Components
  components_at s app = record {
    database = (database_Reads config probes s).0;
    redis = (redis_Reads config probes s).0;
    encryption = (encryption_Reads config probes s).0;
    github_app = app;
    metrics = (metrics_Reads config probes s).0;
  }

  ready_lem :
      (s : S) (w : World S)
      → w.db ≡ s
      → (perform_readiness_check config probes w).0
        ≡ ok (readiness_of config probes (components_at s fine))
  unfolding perform_readiness_check
  ready_lem s w same = ground (
    arith,
    (database_Reads config probes s).1 w same,
    (redis_Reads config probes s).1 w same,
    (encryption_Reads config probes s).1 w same,
    (metrics_Reads config probes s).1 w same,
  )

  health_lem :
      (cache : Option AppCheck) (w : World S)
      → (app : ComponentHealth) × (cache' : Option AppCheck) × ((perform_health_check config probes
            cache w).0
          ≡ ok (result_of config probes (components_at w.db app), cache'))
  unfolding perform_health_check
  health_lem cache w =
      let ((app, cache'), w', e, same) = app_total config probes cache w in
      (
        app,
        cache',
        ground (
          arith,
          (database_Reads config probes w.db).1 w refl,
          (redis_Reads config probes w.db).1 w refl,
          (encryption_Reads config probes w.db).1 w refl,
          e,
          (metrics_Reads config probes w.db).1 w' same,
        ),
      )

  -- The service is ready exactly when the database, Redis and the encryption are healthy, and the
  -- metrics too if they are enabled.
  ready_iff :
      (c : Components)
      → ((readiness_of config probes c).ready ≡ true) ↔ (
          (c.database.status ≡ healthy)
          × (c.redis.status ≡ healthy)
          × (c.encryption.status ≡ healthy)
          × ((probes.metrics_enabled ≡ false) ⊎ (c.metrics.status ≡ healthy)))
  ready_iff c = (
    (λ h. (
      ground arith,
      ground arith,
      ground arith,
      elim (Bool-cases probes.metrics_enabled) [ inl on ↦ inr (ground arith) | inr off ↦ inl off ],
    )),
    λ (a, b, c', d). ground arith,
  )

  -- A check answers that its component is healthy.
  abbrev pub IsUp : Eff S ComponentHealth → World S → Type 0
  IsUp m w = (h : ComponentHealth) × ((m w).0 ≡ ok h) × (h.status ≡ healthy)

  IsUp-iff :
      (m : Eff S ComponentHealth) (w : World S) (h : ComponentHealth)
      → m w ≡ (ok h, w)
      → (h.status ≡ healthy) ↔ IsUp m w
  IsUp-iff m w h e = ((λ up. (h, ground (arith, e), up)), λ (h', e', up). ground (arith, e))

  -- The readiness check never throws, and it answers that the service is ready exactly when the checks
  -- of the database, of Redis and of the encryption each answer that all is healthy, and that of the
  -- metrics too unless they are disabled.
  pub perform_readiness_check_iff :
      (w : World S)
      → (q : Readiness) × ((perform_readiness_check config probes w).0 ≡ ok q)
        × ((q.ready ≡ true) ↔ (
            IsUp (check_database_health config probes) w
            × IsUp (check_redis_health config probes) w
            × IsUp (check_encryption_health config probes) w
            × ((probes.metrics_enabled ≡ false) ⊎ IsUp (check_metrics_health config probes) w)))
  perform_readiness_check_iff w =
      let i = ready_iff (components_at w.db fine) in
      let d =
        IsUp-iff (check_database_health config probes) w _
          ((database_Reads config probes w.db).1 w refl) in
      let r =
        IsUp-iff (check_redis_health config probes) w _
          ((redis_Reads config probes w.db).1 w refl) in
      let e =
        IsUp-iff (check_encryption_health config probes) w _
          ((encryption_Reads config probes w.db).1 w refl) in
      let m =
        IsUp-iff (check_metrics_health config probes) w _
          ((metrics_Reads config probes w.db).1 w refl) in
      (
        readiness_of config probes (components_at w.db fine),
        ready_lem w.db w refl,
        (
          (λ h.
              let (a, b, c, x) = i.0 h in
              (d.0 a, r.0 b, e.0 c, elim x [ inl off ↦ inl off | inr up ↦ inr (m.0 up) ])),
          λ (a, b, c, x).
              i.1 (d.1 a, r.1 b, e.1 c, elim x [ inl off ↦ inl off | inr up ↦ inr (m.1 up) ]),
        ),
      )

  compare_lem :
      (c : Components) (app : ComponentHealth)
      → (((readiness_of config probes c).ready ≡ true)
          × ((result_of config probes (record c { github_app = app })).status ≢ unhealthy))
        ⊎ (((readiness_of config probes c).ready ≡ false)
            × ((result_of config probes (record c { github_app = app })).status ≢ healthy))
  unfolding overall_status
  compare_lem c app =
      let critical : List HealthStatus =
        c.database.status ∷ c.redis.status ∷ c.encryption.status ∷ [] in
      let others : List HealthStatus =
        app.status ∷ (if probes.metrics_enabled then c.metrics.status ∷ [] else []) in
      elim (Bool-cases (readiness_of config probes c).ready) [
        | inl up ↦
            let (a, b, e, _) = (ready_iff c).0 up in
            inl (up, λ down. ground (arith, a, b, e, (overall_status_iff critical others).0.0 down))
        | inr down ↦ inr (down, λ up. ground (arith, (overall_status_iff critical others).1.0 up))
      ]

  -- On one state of the database and the other parts, the two endpoints agree: a service that is ready
  -- is not reported unhealthy, and one that is not ready is not reported healthy. Neither throws.
  pub perform_health_check-perform_readiness_check :
      (cache : Option AppCheck) (w w' : World S)
      → w'.db ≡ w.db
      → (r : HealthCheckResult) × (cache' : Option AppCheck) × (q : Readiness)
        × ((perform_health_check config probes cache w).0 ≡ ok (r, cache'))
        × ((perform_readiness_check config probes w').0 ≡ ok q)
        × (((q.ready ≡ true) × (r.status ≢ unhealthy)) ⊎ ((q.ready ≡ false) × (r.status ≢ healthy)))
  perform_health_check-perform_readiness_check cache w w' same =
      let (app, cache', e) = health_lem cache w in
      (
        result_of config probes (components_at w.db app),
        cache',
        readiness_of config probes (components_at w.db fine),
        e,
        ready_lem w.db w' same,
        compare_lem (components_at w.db fine) app,
      )
