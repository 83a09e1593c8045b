-- ===== src/HealthCheck/Reads.antt =====
-- Each check never throws; all but that of the GitHub App only read the outside.
use af_auth.Base.{
  ℕ, suc, ◌≡◌, refl, true, false, Option, none, some, arith, inl, inr, Bool-cases, ◌&&◌, ◌===◌,
  if◌then◌else◌, truthy, ltb, ◌+◌,
}
use af_auth.Base.Eff.{ok, World, Eff, Result-cases, message}
use af_auth.Env.{Config}
use af_auth.HealthCheck.{
  healthy, fine, failing, ComponentHealth, Probes, AppCheck, check_database_health, database_status,
  check_redis_health, ping_status, check_encryption_health, check_metrics_health, output_status,
  registry_status, enabled_status, check_github_app_health, sign_status, fresh_app_status,
  cached_app_status, remembered,
}

module _ {S : Type 0} (config : Config) (probes : Probes S) where
  -- A check that never throws, changes nothing, and depends on the database's state alone.
  abbrev pub Reads : Eff S ComponentHealth → S → ComponentHealth → Type 0
  Reads m s h = (w : World S) → w.db ≡ s → m w ≡ (ok h, w)

  pub database_Reads :
      (s : S) → (h : ComponentHealth) × Reads (check_database_health config probes) s h
  unfolding check_database_health
  database_Reads s = elim (Result-cases (probes.database s)) [
    | inl (b, e) ↦ (database_status config probes b, λ w same. ground (arith, same, e))
    | inr (x, e) ↦ (failing (message x), λ w same. ground (arith, same, e))
  ]

  pub redis_Reads : (s : S) → (h : ComponentHealth) × Reads (check_redis_health config probes) s h
  unfolding check_redis_health ping_status
  redis_Reads s = elim (Result-cases (probes.redis_connected s)) [
    | inl (true, e) ↦ elim (Result-cases (probes.redis_ping s)) [
      | inl (a, f) ↦ (
        if a === "PONG" then fine else failing "Redis PING failed",
        λ w same. ground (arith, same, e, f),
      )
      | inr (x, f) ↦ (failing (message x), λ w same. ground (arith, same, e, f))
    ]
    | inl (false, e) ↦ (failing "Redis is not connected", λ w same. ground (arith, same, e))
    | inr (x, e) ↦ (failing (message x), λ w same. ground (arith, same, e))
  ]

  pub encryption_Reads :
      (s : S) → (h : ComponentHealth) × Reads (check_encryption_health config probes) s h
  unfolding check_encryption_health
  encryption_Reads s = (_, λ w same. refl)

  output_Reads : (s : S) → (h : ComponentHealth) × Reads (output_status config probes) s h
  unfolding output_status
  output_Reads s = elim (Result-cases (probes.metrics_output s)) [
    | inl (o, e) ↦ (
      if o === "" then failing "Metrics collection failed - no data available" else fine,
      λ w same. ground (arith, same, e),
    )
    | inr (x, e) ↦ (failing "Failed to retrieve metrics", λ w same. ground (arith, same, e))
  ]

  pub metrics_Reads :
      (s : S) → (h : ComponentHealth) × Reads (check_metrics_health config probes) s h
  unfolding check_metrics_health registry_status enabled_status
  metrics_Reads s =
      let (h, output) = output_Reads s in
      elim (Bool-cases probes.metrics_enabled) [
        | inl on ↦ elim (Result-cases (probes.metrics_initialized s)) [
          | inl (true, e) ↦ elim (Result-cases (probes.metrics_registry s)) [
            | inl (true, f) ↦ (h, λ w same. ground (arith, same, e, f, on, output w same))
            | inl (false, f) ↦
                (failing "Inconsistent metrics state", λ w same. ground (arith, same, e, f, on))
            | inr (x, f) ↦ (failing (message x), λ w same. ground (arith, same, e, f, on))
          ]
          | inl (false, e) ↦
              (failing "Metrics registry not initialized", λ w same. ground (arith, same, e, on))
          | inr (x, e) ↦ (failing (message x), λ w same. ground (arith, same, e, on))
        ]
        | inr off ↦ (
          record { status = healthy; message_text = some "Metrics disabled" },
          λ w same. ground (arith, same, off),
        )
      ]

  fresh_total :
      (t : ℕ) (w : World S)
      → (r : ComponentHealth × Option AppCheck) × (w' : World S) × (fresh_app_status config probes t
            w
          ≡ (ok r, w'))
        × (w'.db ≡ w.db)
  unfolding fresh_app_status sign_status
  fresh_total t w =
      elim (Bool-cases (
        truthy probes.app_id
        && truthy probes.app_private_key
        && truthy probes.app_installation_id)) [
          | inl given ↦
              elim (Result-cases
                (probes.sign_test (w.clock w.reads) (w.clock (suc w.reads)) w.db)) [
                  | inl (a, e) ↦ (
                    remembered config probes fine t,
                    record w { reads = suc (suc w.reads) },
                    ground (arith, given, e),
                    refl,
                  )
                  | inr (x, e) ↦ (
                    remembered config probes (failing "GitHub App private key invalid") t,
                    record w { reads = suc (suc w.reads) },
                    ground (arith, given, e),
                    refl,
                  )
                ]
          | inr missing ↦ (
            remembered config probes (failing "GitHub App configuration incomplete") t,
            w,
            ground (arith, missing),
            refl,
          )
        ]

  cached_total :
      (t : ℕ) (cache : Option AppCheck) (w : World S)
      → (r : ComponentHealth × Option AppCheck) × (w' : World S) × (cached_app_status config probes
            t cache w
          ≡ (ok r, w'))
        × (w'.db ≡ w.db)
  unfolding cached_app_status
  cached_total t none w = fresh_total t w
  cached_total t (some c) w = elim (Bool-cases (ltb t (c.timestamp + 60000))) [
    | inl young ↦ (
      (record { status = c.status; message_text = c.message_text }, some c),
      w,
      ground (arith, young),
      refl,
    )
    | inr old ↦ let (r, w', e, same) = fresh_total t w in (r, w', ground (arith, old, e), same)
  ]

  -- The check of the GitHub App never throws, and leaves the database alone.
  pub app_total :
      (cache : Option AppCheck) (w : World S)
      → (r : ComponentHealth × Option AppCheck) × (w' : World S) × (check_github_app_health config
            probes cache w
          ≡ (ok r, w'))
        × (w'.db ≡ w.db)
  unfolding check_github_app_health
  app_total cache w = cached_total (w.clock w.reads) cache (record w { reads = suc w.reads })
