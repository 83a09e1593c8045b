-- ===== src/Metrics.antt =====
-- src/routes/metrics.ts: the endpoint with the metrics, and who may read it. `timingSafeEqual` on the
-- bytes of two texts, which throws at different lengths, is a parameter, and so are the metrics that
-- the registry of services/metrics.ts prints.
pub mod Readers
pub mod Registry
use af_auth.Base.{
  ℕ, String, Bool, true, false, Option, none, some, List, [], ◌∷◌, ◌===◌, if◌then◌else◌, truthy,
  split,
}
use af_auth.Base.Eff.{Result, ok, err, Thrown}

-- The status, `error` and `message` of a refusal, or the metrics as text.
pub data MetricsResponse : Type 0 where
  refused : ℕ → String → String → MetricsResponse
  exposition : String → MetricsResponse

-- What the endpoint reads: two settings, and the registry, if `initializeMetrics` has made one, with
-- what its `metrics()` answers.
pub record MetricsState : Type 0 where
  pub auth_token : Option String
  pub enabled : Bool
  pub registry : Option (Result String)

abbrev pub invalid_token : MetricsResponse
invalid_token = refused 403 "Forbidden" "Invalid authentication token"

abbrev pub invalid_format : MetricsResponse
invalid_format =
    refused 401 "Unauthorized" "Invalid Authorization header format. Expected: Bearer <token>"

-- `areMetricsEnabled`
abbrev pub are_metrics_enabled : MetricsState → Bool
are_metrics_enabled m = elim m.registry [ none ↦ false | some r ↦ m.enabled ]

-- `getMetrics`: `none` is `null`.
unfoldable pub get_metrics : MetricsState → Result (Option String)
get_metrics m =
    if are_metrics_enabled m
    then (elim m.registry [
      | none ↦ ok none
      | some r ↦ elim r [ ok text ↦ ok (some text) | err e ↦ err e ]
    ])
    else ok none

abbrev pub answer_metrics : Result (Option String) → MetricsResponse
answer_metrics (ok none) = refused 503 "Service Unavailable" "Metrics not available"
answer_metrics (ok (some text)) = exposition text
answer_metrics (err e) = refused 500 "Internal Server Error" "Failed to retrieve metrics"

-- The handler behind the authentication.
unfoldable pub serve_metrics : MetricsState → MetricsResponse
serve_metrics m =
    if are_metrics_enabled m
    then answer_metrics (get_metrics m)
    else refused 404 "Not Found" "Metrics are disabled"

-- The end of `authenticateMetrics`; `none` is the call of `next`.
abbrev pub compared : Result Bool → Option MetricsResponse
compared (ok true) = none
compared (ok false) = some invalid_token
compared (err e) = some invalid_token

abbrev pub or_serve : MetricsState → Option MetricsResponse → MetricsResponse
or_serve m none = serve_metrics m
or_serve m (some refusal) = refusal

module _ (timing_safe_equal : String → String → Result Bool) where
  abbrev pub check_parts : String → List String → Option MetricsResponse
  check_parts expected [] = some invalid_format
  check_parts expected (scheme ∷ []) = some invalid_format
  check_parts expected (scheme ∷ token ∷ []) =
      if scheme === "Bearer"
      then compared (timing_safe_equal token expected)
      else some invalid_format
  check_parts expected (scheme ∷ token ∷ more ∷ rest) = some invalid_format

  abbrev pub check_header : String → Option String → Option MetricsResponse
  check_header expected none = some (refused 401 "Unauthorized" "Authorization header required")
  check_header expected (some header) =
      if truthy (some header)
      then check_parts expected (split b' ' header)
      else some (refused 401 "Unauthorized" "Authorization header required")

  unfoldable pub authenticate_metrics : Option String → Option String → Option MetricsResponse
  authenticate_metrics none header = none
  authenticate_metrics (some token) header =
      if truthy (some token) then check_header token header else none

  -- `GET /metrics`
  unfoldable pub metrics_route : MetricsState → Option String → MetricsResponse
  metrics_route m header = or_serve m (authenticate_metrics m.auth_token header)
