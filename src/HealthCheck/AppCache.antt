-- ===== src/HealthCheck/AppCache.antt =====
-- The cache of the GitHub App's check.
use af_auth.Base.{
  ℕ, suc, ◌+◌, ◌<◌, ◌≡◌, refl, subst, Option, none, some, arith, inl, inr, Bool-cases, ltb, truthy,
  ◌&&◌,
}
use af_auth.Base.Eff.{ok, World, Result-cases}
use af_auth.Env.{Config}
use af_auth.HealthCheck.{
  ComponentHealth, Probes, AppCheck, check_github_app_health, cached_app_status, fresh_app_status,
  sign_status, app_cache_ttl_ms, remembered, fine, failing,
}

module _ {S : Type 0} (config : Config) (probes : Probes S) where
  -- The entry says what the answer says, and was made less than a minute ago.
  abbrev pub Recent : ComponentHealth × Option AppCheck → ℕ → Type 0
  Recent (h, none) t = ⊥
  Recent (h, some c) t =
      (c.status ≡ h.status)
      × (c.message_text ≡ h.message_text)
      × (t < c.timestamp + app_cache_ttl_ms config probes)

  remembered-Recent :
      (h : ComponentHealth) (t : ℕ) (r : ComponentHealth × Option AppCheck)
      → remembered config probes h t ≡ r
      → Recent r t
  remembered-Recent h t r e = subst (λ x. Recent x t) e (refl, refl, ground arith)

  fresh_Recent :
      (t : ℕ) (w : World S) (r : ComponentHealth × Option AppCheck)
      → (fresh_app_status config probes t w).0 ≡ ok r
      → Recent r t
  unfolding fresh_app_status sign_status
  fresh_Recent t w r h =
      elim (Bool-cases (
        truthy probes.app_id
        && truthy probes.app_private_key
        && truthy probes.app_installation_id)) [
          | inl given ↦
              elim (Result-cases
                (probes.sign_test (w.clock w.reads) (w.clock (suc w.reads)) w.db)) [
                  | inl (a, e) ↦ remembered-Recent fine t r (ground (arith, given, e))
                  | inr (x, e) ↦
                      remembered-Recent (failing "GitHub App private key invalid") t r
                        (ground (arith, given, e))
                ]
          | inr missing ↦
              remembered-Recent (failing "GitHub App configuration incomplete") t r
                (ground (arith, missing))
        ]

  cached_Recent :
      (t : ℕ) (cache : Option AppCheck) (w : World S) (r : ComponentHealth × Option AppCheck)
      → (cached_app_status config probes t cache w).0 ≡ ok r
      → Recent r t
  unfolding cached_app_status
  cached_Recent t none w r h = fresh_Recent t w r h
  cached_Recent t (some c) w r h = elim (Bool-cases (ltb t (c.timestamp + 60000))) [
    | inl young ↦
        let hit : (record { status = c.status; message_text = c.message_text }, some c) ≡ r =
          ground (arith, young) in
        subst (λ x. Recent x t) hit (refl, refl, ground arith)
    | inr old ↦ fresh_Recent t w r (ground arith)
  ]

  -- The answer of the check is never older than a minute, and until the minute of its entry has passed
  -- every later check gives the same answer from the cache: it signs nothing and changes nothing.
  pub check_github_app_health-again :
      (cache : Option AppCheck) (h : ComponentHealth) (c : AppCheck) (w w' : World S)
      → (check_github_app_health config probes cache w).0 ≡ ok (h, some c)
      → w'.clock w'.reads < c.timestamp + app_cache_ttl_ms config probes
      → (w.clock w.reads < c.timestamp + app_cache_ttl_ms config probes)
        × (check_github_app_health config probes (some c) w'
            ≡ (ok (h, some c), record w' { reads = suc w'.reads }))
  unfolding check_github_app_health cached_app_status
  check_github_app_health-again cache h c w w' e young =
      let (same, said, recent) =
        cached_Recent (w.clock w.reads) cache (record w { reads = suc w.reads }) (h, some c) e in
      (recent, ground (arith, same, said))
