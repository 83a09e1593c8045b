-- ===== src/Tests/Codec.antt =====
-- An encoding of texts without colons, in the place of base64, and one of states, in that of JSON.
use Prim.Native.Char.{code}
use text.Mathlib.TextEquality.{Char-path}
use af_auth.Base.{
  ℕ, suc, String, ◌≡◌, ◌≢◌, refl, sym, ap, ap₂, ◌∙◌, Bool, true, false, List, [], ◌∷◌, arith, inl,
  inr, Bool-cases, ◌==◌, if◌then◌else◌, ◌+++◌, split, Lacks, split-append, split-Lacks, size,
}
use af_auth.Base.Eff.{Result, ok, err, error}
use af_auth.Env.{OauthState}

-- ":" becomes "~0" and "~" becomes "~1".
abbrev pub escape : String → String
escape String.[] = String.[]
escape (String.◌∷◌ c s) =
    let rest = escape s in
    if code c == b':'
    then String.◌∷◌ "~" (String.◌∷◌ "0" rest)
    else if code c == b'~'
    then String.◌∷◌ "~" (String.◌∷◌ "1" rest)
    else String.◌∷◌ c rest

-- The reader says whether the last character was an open "~".
abbrev pub unescape_from : Bool → String → String
unescape_from b String.[] = String.[]
unescape_from true (String.◌∷◌ c s) =
    String.◌∷◌ (if code c == b'0' then ":" else "~") (unescape_from false s)
unescape_from false (String.◌∷◌ c s) =
    let open_rest = unescape_from true s in
    let rest = unescape_from false s in if code c == b'~' then open_rest else String.◌∷◌ c rest

abbrev pub unescape : String → String
unescape s = unescape_from false s

pub unescape-escape : (s : String) → unescape (escape s) ≡ s
unescape-escape String.[] = refl
unescape-escape (String.◌∷◌ c s) = elim (Bool-cases (code c == b':')) [
  | inl e ↦ rw e (ap₂ String.◌∷◌ (Char-path ":" c (ground arith)) (unescape-escape s))
  | inr e ↦ elim (Bool-cases (code c == b'~')) [
    | inl f ↦ rw (e, f) (ap₂ String.◌∷◌ (Char-path "~" c (ground arith)) (unescape-escape s))
    | inr f ↦ rw (e, f) (rw f (ap (String.◌∷◌ c) (unescape-escape s)))
  ]
]

pub escape-Lacks : (s : String) → Lacks b':' (escape s)
escape-Lacks String.[] = tt
escape-Lacks (String.◌∷◌ c s) = elim (Bool-cases (code c == b':')) [
  | inl e ↦ rw e ((λ p. omega (arith, p)), ((λ p. omega (arith, p)), escape-Lacks s))
  | inr e ↦ elim (Bool-cases (code c == b'~')) [
    | inl f ↦ rw (e, f) ((λ p. omega (arith, p)), ((λ p. omega (arith, p)), escape-Lacks s))
    | inr f ↦ rw (e, f) ((λ p. ground arith), escape-Lacks s)
  ]
]

-- A number as so many letters.
abbrev ticks : ℕ → String
ticks ℕ.zero = ""
ticks (suc n) = String.◌∷◌ "i" (ticks n)

size-ticks : (n : ℕ) → size (ticks n) ≡ n
size-ticks ℕ.zero = refl
size-ticks (suc n) = ap suc (size-ticks n)

ticks-Lacks : (n : ℕ) → Lacks b':' (ticks n)
ticks-Lacks ℕ.zero = tt
ticks-Lacks (suc n) = ((λ p. omega (arith, p)), ticks-Lacks n)

abbrev pub encode_state : OauthState → String
encode_state d =
    escape d.state +++ String.◌∷◌ ":" (escape d.request_id +++ String.◌∷◌ ":" (ticks d.timestamp))

abbrev pub decode_parts : List String → Result OauthState
decode_parts (a ∷ b ∷ c ∷ []) =
    ok (record { state = unescape a; request_id = unescape b; timestamp = size c })
decode_parts _ = err (error "Unexpected token in JSON")

abbrev pub decode_state : String → Result OauthState
decode_state s = decode_parts (split b':' s)

pub decode_state-encode_state : (d : OauthState) → decode_state (encode_state d) ≡ ok d
decode_state-encode_state d =
    rw
      (
        split-append ":" (escape d.state)
            (escape d.request_id +++ String.◌∷◌ ":" (ticks d.timestamp)) (escape-Lacks d.state),
        split-append ":" (escape d.request_id) (ticks d.timestamp) (escape-Lacks d.request_id),
        split-Lacks b':' (ticks d.timestamp) (ticks-Lacks d.timestamp),
        unescape-escape d.state,
        unescape-escape d.request_id,
        size-ticks d.timestamp,
      )
      refl

pub encode_state-nonempty : (d : OauthState) → encode_state d ≢ ""
unfolding split
encode_state-nonempty d h =
    let read : ok d ≡ decode_state "" = sym (decode_state-encode_state d) ∙ ap decode_state h in
    ground (arith, read)
