-- ===== src/RateLimit/Hits.antt =====
-- What the limiters tell the metrics, and where they count.
use af_auth.Base.{
  ℕ, String, ◌≡◌, refl, ap, List, [], ◌∷◌, map, Bool-cases, inl, inr, ◌==◌, if◌then◌else◌,
}
use af_auth.Config.Settings.{MetricsSettings}
use af_auth.Metrics.Registry.{MetricsService, Prom, Call, record_rate_limit_hit, call, calls}
use af_auth.RedisClient.{RedisClient}
use af_auth.RateLimit.{
  Verdict, exceeded, within, Limited, too_many_requests, passed, LimiterOptions, limit, limit_all,
}

-- The hits that a sequence of requests should be counted as, in their order.
abbrev pub hits : String → List (Verdict × ℕ) → List Call
hits prefix [] = []
hits prefix ((exceeded, status) ∷ rest) = record_rate_limit_hit prefix "blocked" ∷ hits prefix rest
hits prefix ((within, status) ∷ rest) =
    if status == 429
    then hits prefix rest
    else record_rate_limit_hit prefix "allowed" ∷ hits prefix rest

abbrev pub answer : LimiterOptions → Verdict × ℕ → Limited
answer options (exceeded, status) = too_many_requests 429 options.message
answer options (within, status) = passed

module _ {P : Type 0} (prom : Prom P) (settings : MetricsSettings) (environment : String)
    (options : LimiterOptions) where
  -- A sequence of requests is answered one by one: 429 with the message of the limiter for those that
  -- exceed it, and all others go on. The metrics end as if exactly one hit per request had been
  -- recorded, blocked or allowed, in the order of the requests; a request that goes on although its
  -- response has status 429 already is not counted.
  pub limit_all-calls :
      (rs : List (Verdict × ℕ)) (m : MetricsService P)
      → limit_all prom settings environment options rs m
        ≡ (map (answer options) rs, calls prom settings environment (hits options.key_prefix rs) m)
  unfolding limit_all limit calls
  limit_all-calls [] m = refl
  limit_all-calls ((exceeded, status) ∷ rest) m =
      ap (λ x. (too_many_requests 429 options.message ∷ x.0, x.1))
        (limit_all-calls rest
          (call prom settings environment (record_rate_limit_hit options.key_prefix "blocked") m))
  limit_all-calls ((within, status) ∷ rest) m = elim (Bool-cases (status == 429)) [
    | inl e ↦ rw e (ap (λ x. (passed ∷ x.0, x.1)) (limit_all-calls rest m))
    | inr e ↦ rw e (
        ap (λ x. (passed ∷ x.0, x.1))
          (limit_all-calls rest (
            call prom settings environment (record_rate_limit_hit options.key_prefix "allowed") m)))
  ]
