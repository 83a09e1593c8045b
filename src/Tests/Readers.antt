-- ===== src/Tests/Readers.antt =====
-- The theorem on the endpoint with the metrics, with the equality of texts as the comparison.
use af_auth.Base.{
  String, ◌≡◌, ◌↔◌, refl, ap, true, some, ◌===◌, str_eq→eq, eq_iff, arith, split, Bool,
}
use af_auth.Base.Eff.{Result, ok}
use af_auth.Metrics.{
  MetricsState, exposition, metrics_route, authenticate_metrics, serve_metrics, get_metrics,
}
use af_auth.Metrics.Readers.{metrics_route_iff, IsEquality, MayRead}

abbrev same_text : String → String → Result Bool
same_text a b = ok (a === b)

same_text-IsEquality : IsEquality same_text
same_text-IsEquality a b = ((λ h. str_eq→eq a b (ground arith)), λ h. ap ok ((eq_iff a b).1 h))

abbrev state : MetricsState
state = record { auth_token = some "secret"; enabled = true; registry = some (ok "up 1") }

reads : metrics_route same_text state (some "Bearer secret") ≡ exposition "up 1"
unfolding metrics_route authenticate_metrics serve_metrics get_metrics split
reads = refl

metrics_route_iff_example :
    (metrics_route same_text state (some "Bearer secret") ≡ exposition "up 1") ↔ (
      MayRead state.auth_token (some "Bearer secret")
      × (state.registry ≡ some (ok "up 1"))
      × (state.enabled ≡ true))
metrics_route_iff_example =
    metrics_route_iff same_text same_text-IsEquality state (some "Bearer secret") "up 1"
