-- ===== src/SecurityHeaders/Policy.antt =====
-- The content policy of every response: no directive is lost, and inline scripts are allowed by the
-- nonce of the response only, if it has one.
use Prim.Native.Char.{code}
use af_auth.Base.{
  ℕ, String, Lacks, ◌≡◌, refl, sym, ap, ◌∙◌, subst, true, false, ◌&&◌, ◌||◌, Option, none, some,
  List, [], ◌∷◌, ◌++◌, map, keep, All, arith, ◌⊎◌, inl, inr, Bool-cases, Option-cases, ◌==◌, ◌+++◌,
  truthy, split, trim,
}
use af_auth.Base.Eff.{Result, ok, err}
use af_auth.SecurityHeaders.{
  Directives, parse_directive, inline_source, inline_sources, csp_directives, kebab_case,
  accepted_nonce, csp_nonce, is_nonce, ends_as_nonce, is_padding, is_base64_char, is_set_to,
  security_headers, headers_of, get_security_headers_config, default_if_empty,
}

abbrev pub directive_names : List String
directive_names =
    "default-src" ∷ "script-src" ∷ "style-src" ∷ "img-src" ∷ "connect-src" ∷ "font-src"
    ∷ "object-src" ∷ "media-src" ∷ "frame-src" ∷ "form-action" ∷ "frame-ancestors" ∷ "base-uri" ∷ []

abbrev pub IsFilled : List String → Type 0
IsFilled l = (v : String) × (vs : List String) × (l ≡ v ∷ vs)

default-IsFilled : (l d : List String) → IsFilled d → IsFilled (default_if_empty l d)
default-IsFilled [] d h = h
default-IsFilled (v ∷ vs) d h = (v, vs, refl)

append-IsFilled : (l : List String) (x : String) → IsFilled (l ++ x ∷ [])
append-IsFilled [] x = (x, [], refl)
append-IsFilled (v ∷ vs) x = (v, vs ++ x ∷ [], refl)

-- Filled directives are all kept.
csp_directives-filled :
    (ds : Directives)
    → All (λ (p : String × List String). IsFilled p.1) ds
    → csp_directives ds ≡ map (λ (p : String × List String). (kebab_case p.0, p.1)) ds
unfolding csp_directives
csp_directives-filled [] h = refl
csp_directives-filled ((key, []) ∷ rest) ((v, vs, e), hs) = absurd (ground arith)
csp_directives-filled ((key, v ∷ vs) ∷ rest) (h, hs) =
    ap (λ ds. (kebab_case key, v ∷ vs) ∷ ds) (csp_directives-filled rest hs)

-- The sources of the last kind: what stands before, and then the inline source of the nonce.
abbrev pub EndsWith : String → List String → Type 0
EndsWith x l = (before : List String) × (l ≡ before ++ x ∷ [])

abbrev pub InDirectives : String → List String → Directives → Type 0
InDirectives name l [] = ⊥
InDirectives name l ((n, m) ∷ rest) = ((n ≡ name) × (m ≡ l)) ⊎ InDirectives name l rest

-- The characters that are neither in base64 nor its padding.
abbrev pub IsForeign : ℕ → Type 0
IsForeign d = (is_base64_char d || d == b'=' ≡ false)

padding-Lacks : (d : ℕ) (s : String) → IsForeign d → is_padding s ≡ true → Lacks d s
padding-Lacks d String.[] h p = tt
padding-Lacks d (String.◌∷◌ c s) h p = ((λ e. ground arith), padding-Lacks d s h (ground arith))

ends-Lacks : (d : ℕ) (s : String) → IsForeign d → ends_as_nonce s ≡ true → Lacks d s
ends-Lacks d String.[] h p = tt
ends-Lacks d (String.◌∷◌ c s) h p = elim (Bool-cases (is_base64_char (code c) && ends_as_nonce s)) [
  | inl e ↦ ((λ x. ground arith), ends-Lacks d s h (ground arith))
  | inr e ↦ ((λ x. ground arith), padding-Lacks d s h (ground arith))
]

nonce-Lacks : (d : ℕ) (s : String) → IsForeign d → is_nonce s ≡ true → Lacks d s
unfolding is_nonce
nonce-Lacks d String.[] h p = tt
nonce-Lacks d (String.◌∷◌ c s) h p = ((λ x. ground arith), ends-Lacks d s h (ground arith))

-- The nonce that a response gets: one that was drawn, is not empty and has the form of base64.
abbrev pub Allows : Result String → String → Type 0
Allows drawn n = (drawn ≡ ok n) × (truthy (some n) ≡ true) × (is_nonce n ≡ true)

disallowed :
    (n m : String)
    → ◌≡◌ {A = Result String} (ok n) (ok m)
    → (truthy (some n) ≡ false) ⊎ (is_nonce n ≡ false)
    → truthy (some m) ≡ true
    → is_nonce m ≡ true
    → ⊥
disallowed n m same (inl empty) given good =
    let one : n ≡ m = ground arith in ground (arith, subst (λ x. truthy (some x) ≡ false) one empty)
disallowed n m same (inr bad) given good =
    let one : n ≡ m = ground arith in ground (arith, subst (λ x. is_nonce x ≡ false) one bad)

allowed_cases :
    (drawn : Result String)
    → ((n : String) × Allows drawn n × (accepted_nonce (csp_nonce drawn) ≡ some n))
      ⊎ (((n : String) → Allows drawn n → ⊥) × (accepted_nonce (csp_nonce drawn) ≡ none))
unfolding csp_nonce
allowed_cases (err e) = inr ((λ n (same, given, good). ground arith), refl)
allowed_cases (ok n) = elim (Bool-cases (truthy (some n))) [
  | inr empty ↦
      inr ((λ m (same, given, good). disallowed n m same (inl empty) given good), ground arith)
  | inl given ↦ elim (Bool-cases (is_nonce n)) [
    | inr bad ↦
        inr ((λ m (same, given, good). disallowed n m same (inr bad) given good), ground arith)
    | inl good ↦ inl (n, (refl, given, good), ground arith)
  ]
]

inline_lem_none : (n : Option String) → n ≡ none → inline_source n ≡ "'unsafe-inline'"
inline_lem_none n e = rw e refl

inline_lem_some :
    (n : Option String) (m : String)
    → truthy (some m) ≡ true
    → n ≡ some m
    → inline_source n ≡ "'nonce-" +++ m +++ "'"
inline_lem_some n m given e = rw e (rw given refl)

module _ (env : String → Option String) (origin : String → Result String)
    (callback_url : String) where
  parse-IsFilled :
      (name : String) (d : List String)
      → IsFilled d
      → IsFilled (parse_directive env origin callback_url name d)
  unfolding parse_directive
  parse-IsFilled name d h = elim (Option-cases (env name)) [
    | inl e ↦ subst IsFilled (ground arith) h
    | inr (v, e) ↦ elim (Bool-cases (truthy (some v))) [
      | inl given ↦
          subst IsFilled (ground arith)
            (default-IsFilled (keep (λ x. truthy (some x)) (map trim (split b',' v))) d h)
      | inr empty ↦ subst IsFilled (ground arith) h
    ]
  ]

  abbrev Inline : String → Option String → Type 0
  Inline name n = EndsWith (inline_source n) (inline_sources env origin callback_url name n)

  Inline-EndsWith : (name : String) (n : Option String) → Inline name n
  unfolding inline_sources
  Inline-EndsWith name n = elim (Bool-cases (truthy (env name))) [
    | inl given ↦ (parse_directive env origin callback_url name [], ground arith)
    | inr unset ↦ ("'self'" ∷ [], ground arith)
  ]

  inline-IsFilled :
      (name : String) (n : Option String) → IsFilled (inline_sources env origin callback_url name n)
  inline-IsFilled name n =
      let (before, e) = Inline-EndsWith name n in
      subst IsFilled (sym e) (append-IsFilled before (inline_source n))

  abbrev configured : Option String → Directives
  configured n = (get_security_headers_config env origin callback_url n).directives

  configured-IsFilled :
      (n : Option String) → All (λ (p : String × List String). IsFilled p.1) (configured n)
  configured-IsFilled n = (
    parse-IsFilled _ _ (_, _, refl),
    (
      inline-IsFilled "CSP_SCRIPT_SRC" n,
      (
        inline-IsFilled "CSP_STYLE_SRC" n,
        (
          parse-IsFilled _ _ (_, _, refl),
          (
            parse-IsFilled _ _ (_, _, refl),
            (
              parse-IsFilled _ _ (_, _, refl),
              (
                parse-IsFilled _ _ (_, _, refl),
                (
                  parse-IsFilled _ _ (_, _, refl),
                  (
                    parse-IsFilled _ _ (_, _, refl),
                    (
                      parse-IsFilled _ _ (_, _, refl),
                      (parse-IsFilled _ _ (_, _, refl), (parse-IsFilled _ _ (_, _, refl), tt)),
                    ),
                  ),
                ),
              ),
            ),
          ),
        ),
      ),
    ),
  )

  names_lem :
      (n : Option String)
      → map
          (λ (p : String × List String). p.0)
          (map (λ (p : String × List String). (kebab_case p.0, p.1)) (configured n))
        ≡ directive_names
  unfolding kebab_case
  names_lem n = refl

  -- The policy of a response with the source that allows inline scripts and styles: all directives
  -- are there in their order, and the sources of scripts and of styles end with it.
  pub record IsPolicy (source : String) (ds : Directives) : Type 0 where
    pub names : map (λ (p : String × List String). p.0) ds ≡ directive_names
    pub scripts : (l : List String) × EndsWith source l × InDirectives "script-src" l ds
    pub styles : (l : List String) × EndsWith source l × InDirectives "style-src" l ds

  policy_lem :
      (n : Option String)
      → IsPolicy
          (inline_source n)
          (map (λ (p : String × List String). (kebab_case p.0, p.1)) (configured n))
  unfolding kebab_case
  policy_lem n = record {
    names = names_lem n;
    scripts = (
      inline_sources env origin callback_url "CSP_SCRIPT_SRC" n,
      Inline-EndsWith "CSP_SCRIPT_SRC" n,
      inr (inl (refl, refl)),
    );
    styles = (
      inline_sources env origin callback_url "CSP_STYLE_SRC" n,
      Inline-EndsWith "CSP_STYLE_SRC" n,
      inr (inr (inl (refl, refl))),
    );
  }

  given_lem :
      (drawn : Result String)
      → is_set_to env origin callback_url "CSP_ENABLED" "false" ≡ false
      → (headers_of env origin callback_url drawn).content_security_policy
        ≡ some (csp_directives (configured (accepted_nonce (csp_nonce drawn))))
  unfolding security_headers
  given_lem drawn on = rw on refl

  -- Whatever the environment and the draw of the nonce: unless the policy is switched off, a response
  -- gets one with all twelve directives. If a nonce in the form of base64 was drawn, inline scripts and styles
  -- are allowed by its source, and it holds no character that is not in base64; otherwise they are all allowed.
  pub headers_of-IsPolicy :
      (drawn : Result String)
      → is_set_to env origin callback_url "CSP_ENABLED" "false" ≡ false
      → (ds : Directives) × ((headers_of env origin callback_url drawn).content_security_policy
          ≡ some ds)
        × (((n : String) × Allows drawn n
              × ((d : ℕ) → IsForeign d → Lacks d n)
              × IsPolicy ("'nonce-" +++ n +++ "'") ds)
            ⊎ (((n : String) → Allows drawn n → ⊥) × IsPolicy "'unsafe-inline'" ds))
  headers_of-IsPolicy drawn on =
      let n = accepted_nonce (csp_nonce drawn) in
      (
        map (λ (p : String × List String). (kebab_case p.0, p.1)) (configured n),
        given_lem drawn on ∙ ap some (csp_directives-filled (configured n) (configured-IsFilled n)),
        elim (allowed_cases drawn) [
          | inr (never, refused) ↦ inr (
            never,
            subst
                (λ x.
                  IsPolicy x
                    (map (λ (p : String × List String). (kebab_case p.0, p.1)) (configured n)))
                (inline_lem_none n refused) (policy_lem n),
          )
          | inl (m, allowed, e) ↦ inl (
            m,
            allowed,
            (λ d foreign. nonce-Lacks d m foreign allowed.2),
            subst
                (λ x.
                  IsPolicy x
                    (map (λ (p : String × List String). (kebab_case p.0, p.1)) (configured n)))
                (inline_lem_some n m allowed.1 e) (policy_lem n),
          )
        ],
      )
