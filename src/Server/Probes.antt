-- ===== src/Server/Probes.antt =====
-- The answers of the two probes.
use af_auth.Base.{◌≡◌, ◌≢◌, ◌⊎◌, inl, inr, refl, true, false, Option, arith}
use af_auth.Base.Eff.{ok, World}
use af_auth.Env.{Config}
use af_auth.HealthCheck
use af_auth.HealthCheck.{
  HealthStatus, healthy, unhealthy, degraded, HealthCheckResult, AppCheck, Readiness, is_unhealthy,
  perform_health_check, perform_readiness_check,
}
use af_auth.HealthCheck.Status.{perform_health_check-perform_readiness_check}
use af_auth.Server.{Answer, status, health_answer, ready_answer, health_route, ready_route}

ready_lem : (q : Readiness) → q.ready ≡ true → status (ready_answer q) ≡ 200
ready_lem q h = ground arith

not_ready_lem : (q : Readiness) → q.ready ≡ false → status (ready_answer q) ≡ 503
not_ready_lem q h = ground arith

well_lem : (h : HealthStatus) → h ≢ unhealthy → is_unhealthy h ≡ false
well_lem healthy ill = refl
well_lem unhealthy ill = absurd (ill refl)
well_lem degraded ill = refl

health_lem : (r : HealthCheckResult) → r.status ≢ unhealthy → status (health_answer r) ≡ 200
health_lem r h = ground (arith, well_lem r.status h)

module _ {S : Type 0} (config : Config) (probes : HealthCheck.Probes S) where
  health_ok :
      (cache : Option AppCheck) (w : World S) {r : HealthCheckResult} {cache' : Option AppCheck}
      → (perform_health_check config probes cache w).0 ≡ ok (r, cache')
      → (health_route config probes cache w).0 ≡ ok (health_answer r, cache')
  unfolding health_route
  health_ok cache w e = ground arith

  ready_ok :
      (w : World S) {q : Readiness}
      → (perform_readiness_check config probes w).0 ≡ ok q
      → (ready_route config probes w).0 ≡ ok (ready_answer q)
  unfolding ready_route
  ready_ok w e = ground arith

  -- Both probes answer, whatever the parts of the service do. On one state of the outside, a service
  -- that /ready answers with 200 gets 200 from /health too, and /ready answers with 503 otherwise.
  pub ready_route-health_route :
      (cache : Option AppCheck) (w w' : World S)
      → w'.db ≡ w.db
      → (a : Answer) × (b : Answer) × (cache' : Option AppCheck) × ((health_route config probes
            cache w).0
          ≡ ok (a, cache'))
        × ((ready_route config probes w').0 ≡ ok b)
        × (((status b ≡ 200) × (status a ≡ 200)) ⊎ (status b ≡ 503))
  ready_route-health_route cache w w' same =
      let (r, cache', q, e, f, agree) =
        perform_health_check-perform_readiness_check config probes cache w w' same in
      (
        health_answer r,
        ready_answer q,
        cache',
        health_ok cache w e,
        ready_ok w' f,
        elim agree [
          | inl (up, well) ↦ inl (ready_lem q up, health_lem r well)
          | inr (down, ill) ↦ inr (not_ready_lem q down)
        ],
      )
