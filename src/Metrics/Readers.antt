-- ===== src/Metrics/Readers.antt =====
-- Who can read the metrics.
use text.Mathlib.TextLemmas.{cons≢nil, nil-append, cons-append}
use af_auth.Base.{
  String, ◌≡◌, ◌↔◌, refl, sym, ap, ap₂, subst, ◌∙◌, Bool, true, false, Option, none, some, List, [],
  ◌∷◌, ◌+++◌, ◌⊎◌, inl, inr, arith, truthy, split, Lacks, Option-cases, Bool-cases, joined_by-split,
  split-append, split-Lacks, eq_iff, str_eq→eq, ◌===◌,
}
use af_auth.Base.Eff.{Result, ok, err, Result-cases}
use af_auth.Metrics.{
  MetricsState, MetricsResponse, exposition, refused, or_serve, authenticate_metrics, metrics_route,
  serve_metrics, get_metrics, check_parts, check_header, compared,
}

-- Two texts compare equal just when they are the same.
abbrev pub IsEquality : (String → String → Result Bool) → Type 0
IsEquality f = (a b : String) → (f a b ≡ ok true) ↔ (a ≡ b)

-- Nobody has to authenticate, or the header is "Bearer ", the configured token and nothing else,
-- and no space is in that token.
abbrev pub MayRead : Option String → Option String → Type 0
MayRead configured header =
    (truthy configured ≡ false)
    ⊎ ((token : String) × (configured ≡ some token)
        × (header ≡ some ("Bearer " +++ token))
        × Lacks b' ' token)

serve_metrics_iff :
    (m : MetricsState) (text : String)
    → (serve_metrics m ≡ exposition text) ↔ ((m.registry ≡ some (ok text)) × (m.enabled ≡ true))
unfolding serve_metrics get_metrics
serve_metrics_iff m text = elim (Option-cases m.registry) [
  | inl none_made ↦ (λ h. absurd (ground arith), λ h. absurd (ground arith))
  | inr (r, made) ↦ elim (Bool-cases m.enabled) [
    | inl on ↦ elim (Result-cases r) [
      | inl (t, e) ↦ (λ h. ground arith, λ h. ground arith)
      | inr (x, e) ↦ (λ h. absurd (ground arith), λ h. absurd (ground arith))
    ]
    | inr off ↦ (λ h. absurd (ground arith), λ h. absurd (ground arith))
  ]
]

-- No answer of the authentication shows the metrics.
abbrev pub Refuses : Option MetricsResponse → Type 0
Refuses none = Unit
Refuses (some (refused n a b)) = Unit
Refuses (some (exposition t)) = ⊥

some_lem : {a b : String} → ◌≡◌ {A = Option String} (some a) (some b) → a ≡ b
some_lem e = ground arith

-- The token of a header in two parts.
parts_lem :
    (header a t : String)
    → split b' ' header ≡ a ∷ t ∷ []
    → (header ≡ a +++ String.◌∷◌ " " t) × Lacks b' ' t
parts_lem header a t h = let (e, l) = joined_by-split " " header (a ∷ t ∷ []) h in (sym e, l.1.0)

space_lem : (a b : String) → (a +++ " ") +++ b ≡ a +++ String.◌∷◌ " " b
space_lem String.[] b =
    rw (nil-append " ", nil-append (String.◌∷◌ " " b))
      (cons-append " " "" b ∙ ap (String.◌∷◌ " ") (nil-append b))
space_lem (String.◌∷◌ c a) b =
    rw (cons-append c a " ", cons-append c (a +++ " ") b, cons-append c a (String.◌∷◌ " " b))
      (ap (String.◌∷◌ c) (space_lem a b))

bearer-Lacks : Lacks b' ' "Bearer"
bearer-Lacks =
    (omega arith, (omega arith, (omega arith, (omega arith, (omega arith, (omega arith, tt))))))

bearer_lem : (token : String) → "Bearer " +++ token ≡ "Bearer" +++ String.◌∷◌ " " token
bearer_lem token = space_lem "Bearer" token

given : (token : String) → truthy (some ("Bearer " +++ token)) ≡ true
given token =
    let filled =
      λ (e : "Bearer " +++ token ≡ ""). cons≢nil (sym (cons-append "B" "earer " token) ∙ e) in
    ground (arith, eq_iff ("Bearer " +++ token) "", filled)

bearer_parts :
    (token : String) → Lacks b' ' token → split b' ' ("Bearer " +++ token) ≡ "Bearer" ∷ token ∷ []
bearer_parts token l =
    ap (split b' ') (bearer_lem token)
    ∙ split-append " " "Bearer" token bearer-Lacks
    ∙ ap (λ ps. "Bearer" ∷ ps) (split-Lacks b' ' token l)

module _ (timing_safe_equal : String → String → Result Bool)
    (equality : IsEquality timing_safe_equal) where
  compared_lem : (token t : String) → compared (timing_safe_equal t token) ≡ none → t ≡ token
  compared_lem token t h = elim (Result-cases (timing_safe_equal t token)) [
    | inl (b, e) ↦ elim (Bool-cases b) [
      | inl same ↦ (equality t token).0 (e ∙ ap ok same)
      | inr other ↦ absurd (ground arith)
    ]
    | inr (x, e) ↦ absurd (ground arith)
  ]

  check_parts-two :
      (token : String) (parts : List String)
      → check_parts timing_safe_equal token parts ≡ none
      → parts ≡ "Bearer" ∷ token ∷ []
  check_parts-two token [] h = absurd (ground arith)
  check_parts-two token (a ∷ []) h = absurd (ground arith)
  check_parts-two token (a ∷ t ∷ []) h = elim (Bool-cases (a === "Bearer")) [
    | inl e ↦ ap₂ (λ x y. x ∷ y ∷ []) (str_eq→eq a "Bearer" e) (compared_lem token t (ground arith))
    | inr e ↦ absurd (ground arith)
  ]
  check_parts-two token (a ∷ t ∷ b ∷ ps) h = absurd (ground arith)

  check_header-MayRead :
      (token : String) (header : Option String)
      → check_header timing_safe_equal token header ≡ none
      → MayRead (some token) header
  check_header-MayRead token none h = absurd (ground arith)
  check_header-MayRead token (some header) h = elim (Bool-cases (truthy (some header))) [
    | inl given ↦
        let (e, l) =
          parts_lem header "Bearer" token
            (check_parts-two token (split b' ' header) (ground arith)) in
        inr (token, refl, ap some (e ∙ sym (bearer_lem token)), l)
    | inr empty ↦ absurd (ground arith)
  ]

  MayRead-check_header :
      (token : String)
      → Lacks b' ' token
      → check_header timing_safe_equal token (some ("Bearer " +++ token)) ≡ none
  MayRead-check_header token l =
      rw (bearer_parts token l, given token, (equality token token).1 refl) refl

  authenticate_metrics_iff :
      (configured header : Option String)
      → (authenticate_metrics timing_safe_equal configured header ≡ none)
        ↔ MayRead configured header
  unfolding authenticate_metrics
  authenticate_metrics_iff none header = (λ h. inl refl, λ h. refl)
  authenticate_metrics_iff (some token) header = elim (Bool-cases (truthy (some token))) [
    | inl set ↦ (
      (λ h. check_header-MayRead token header (ground arith)),
      λ h. elim h [
        | inl off ↦ absurd (ground arith)
        | inr (t, same, sent, l) ↦
            rw (set, sent, sym (some_lem same))
              (MayRead-check_header token (subst (Lacks b' ') (sym (some_lem same)) l))
      ],
    )
    | inr unset ↦ ((λ h. inl unset), λ h. rw unset refl)
  ]

  compared-Refuses : (r : Result Bool) → Refuses (compared r)
  compared-Refuses (ok true) = tt
  compared-Refuses (ok false) = tt
  compared-Refuses (err e) = tt

  check_parts-Refuses :
      (token : String) (parts : List String) → Refuses (check_parts timing_safe_equal token parts)
  check_parts-Refuses token [] = tt
  check_parts-Refuses token (a ∷ []) = tt
  check_parts-Refuses token (a ∷ t ∷ []) = elim (Bool-cases (a === "Bearer")) [
    | inl e ↦ rw e (compared-Refuses (timing_safe_equal t token))
    | inr e ↦ rw e tt
  ]
  check_parts-Refuses token (a ∷ t ∷ b ∷ ps) = tt

  authenticate_metrics-Refuses :
      (configured header : Option String)
      → Refuses (authenticate_metrics timing_safe_equal configured header)
  unfolding authenticate_metrics
  authenticate_metrics-Refuses none header = tt
  authenticate_metrics-Refuses (some token) none = elim (Bool-cases (truthy (some token))) [
    | inl e ↦ rw e tt
    | inr e ↦ rw e tt
  ]
  authenticate_metrics-Refuses (some token) (some header) =
      elim (Bool-cases (truthy (some token))) [
        | inl e ↦ elim (Bool-cases (truthy (some header))) [
          | inl f ↦ rw (e, f) (check_parts-Refuses token (split b' ' header))
          | inr f ↦ rw (e, f) tt
        ]
        | inr e ↦ rw e tt
      ]

  route_cases :
      (m : MetricsState) (text : String) (a : Option MetricsResponse)
      → Refuses a
      → (or_serve m a ≡ exposition text) ↔ ((a ≡ none) × (serve_metrics m ≡ exposition text))
  route_cases m text none r = ((λ h. (refl, h)), λ (e, h). h)
  route_cases m text (some (refused n a b)) r =
      ((λ h. absurd (ground arith)), λ (e, h). absurd (ground arith))
  route_cases m text (some (exposition t)) r = absurd r

  -- The endpoint answers with the metrics exactly when they are enabled and the registry is there and
  -- prints them, and either no token is configured or the header is "Bearer " and the configured
  -- token, which has no space in it.
  pub metrics_route_iff :
      (m : MetricsState) (header : Option String) (text : String)
      → (metrics_route timing_safe_equal m header ≡ exposition text)
        ↔ (MayRead m.auth_token header × (m.registry ≡ some (ok text)) × (m.enabled ≡ true))
  unfolding metrics_route
  metrics_route_iff m header text =
      let route =
        route_cases m text (authenticate_metrics timing_safe_equal m.auth_token header)
          (authenticate_metrics-Refuses m.auth_token header) in
      let reader = authenticate_metrics_iff m.auth_token header in
      let served = serve_metrics_iff m text in
      (
        (λ h. let (a, b) = route.0 h in let (made, on) = served.0 b in (reader.0 a, made, on)),
        λ (a, made, on). route.1 (reader.1 a, served.1 (made, on)),
      )
