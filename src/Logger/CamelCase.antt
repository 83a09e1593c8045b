-- ===== src/Logger/CamelCase.antt =====
-- src/utils/logger.ts: keys such as `userPassword`, which end in a sensitive field with a capital.
use af_auth.Base.{◌<◌, subst, suc, String, ◌≡◌, refl, ap, true, any, arith, ◌===◌, ◌+++◌, size}
use af_auth.Logger.{
  same_lower, last_part, starts_upper, matches_field, sensitive_fields, is_sensitive,
}
use af_auth.Logger.Redaction.{size-append, last_part-append, listed_lem}

size-same_lower : (a b : String) → same_lower a b ≡ true → size a ≡ size b
size-same_lower String.[] String.[] h = refl
size-same_lower (String.◌∷◌ c a) (String.◌∷◌ d b) h =
    ap suc (size-same_lower a b (ground (arith, h)))
size-same_lower String.[] (String.◌∷◌ d b) h = ground (arith, h)
size-same_lower (String.◌∷◌ c a) String.[] h = ground (arith, h)

matches_field-capital :
    (before part name : String)
    → same_lower part name ≡ true
    → starts_upper part ≡ true
    → 0 < size before
    → matches_field (before +++ part) name ≡ true
unfolding matches_field
matches_field-capital before part name same upper some_before =
    let s : size part ≡ size name = size-same_lower part name same in
    let p : last_part (size name) (before +++ part) ≡ part =
      subst (λ k. last_part k (before +++ part) ≡ part) s (last_part-append before part) in
    let q : size name < size (before +++ part) = omega (arith, size-append before part, s) in
    ground (arith, p, q, same, upper)

-- A key is sensitive when it is a text that is not empty followed by a field of the list with a
-- capital, whatever the case of its other letters.
pub is_sensitive-capital :
    (before part name : String)
    → any (λ n. n === name) sensitive_fields ≡ true
    → same_lower part name ≡ true
    → starts_upper part ≡ true
    → 0 < size before
    → is_sensitive (before +++ part) ≡ true
unfolding is_sensitive
is_sensitive-capital before part name listed same upper some_before =
    listed_lem (before +++ part) name sensitive_fields listed
      (matches_field-capital before part name same upper some_before)
