-- ===== src/Config/Expiry/Laws.antt =====
-- What texts are accepted as a lifetime, and that the program's two readers of them agree.
use Prim.Native.Char.{Char, code}
use text.Mathlib.TextEquality.{Char-path}
use text.Mathlib.TextLemmas.{nil-append, cons-append, cons≢nil}
use af_auth.Base.{
  ℕ, ◌+◌, ◌-◌, ◌*◌, ◌≤◌, String, ◌≡◌, ◌↔◌, refl, Bool, true, false, some, arith, ap, ◌∙◌, ◌⊎◌, inl,
  inr, ◌≢◌, Bool-cases, ◌+++◌, decimal, decimal_from,
}
use af_auth.Base.Eff.{ok}
use af_auth.Config.Expiry.{
  TimeUnit, second, minute, hour, day, is_digit, unit_of, scan, match_expiry,
  parse_jwt_expires_in_to_seconds, validate_jwt_expires_in, parse_time_to_ms, max_safe_integer,
}

abbrev pub AllDigits : String → Type 0
AllDigits String.[] = Unit
AllDigits (String.◌∷◌ c s) = (is_digit (code c) ≡ true) × AllDigits s

abbrev pub letter : TimeUnit → String
letter second = "s"
letter minute = "m"
letter hour = "h"
letter day = "d"

scan-letter : (acc : ℕ) (u : TimeUnit) → scan true acc (letter u) ≡ some (acc, u)
unfolding scan
scan-letter acc second = refl
scan-letter acc minute = refl
scan-letter acc hour = refl
scan-letter acc day = refl

scan-digits :
    (seen : Bool) (acc : ℕ) (ds : String) (u : TimeUnit)
    → AllDigits ds
    → (seen ≡ true) ⊎ (ds ≢ "")
    → scan seen acc (ds +++ letter u) ≡ some (decimal_from acc ds, u)
unfolding scan
scan-digits seen acc String.[] u h (inl s) = rw (nil-append, s) (scan-letter acc u)
scan-digits seen acc String.[] u h (inr n) = absurd (n refl)
scan-digits seen acc (String.◌∷◌ c s) u (d, h) n =
    rw (cons-append, d) (scan-digits true (acc * 10 + (code c - 48)) s u h (inl refl))

unit_of_sound : (c : Char) (u : TimeUnit) → unit_of (code c) ≡ some u → String.◌∷◌ c "" ≡ letter u
unit_of_sound c second h = ap (λ x. String.◌∷◌ x "") (Char-path c "s" (ground arith))
unit_of_sound c minute h = ap (λ x. String.◌∷◌ x "") (Char-path c "m" (ground arith))
unit_of_sound c hour h = ap (λ x. String.◌∷◌ x "") (Char-path c "h" (ground arith))
unit_of_sound c day h = ap (λ x. String.◌∷◌ x "") (Char-path c "d" (ground arith))

-- How a text that was read is made up: digits, at least one of which is read somewhere, and a unit.
record IsLifetime (seen : Bool) (acc : ℕ) (s : String) (n : ℕ) (u : TimeUnit) : Type 0 where
  digits : String
  all_digits : AllDigits digits
  some_digit : (seen ≡ true) ⊎ (digits ≢ "")
  spelled : s ≡ digits +++ letter u
  value : decimal_from acc digits ≡ n

-- Behind the digits the text ends with a unit.
scan_end :
    (seen : Bool) (acc : ℕ) (c : Char) (s : String) (n : ℕ) (u : TimeUnit)
    → is_digit (code c) ≡ false
    → scan seen acc (String.◌∷◌ c s) ≡ some (n, u)
    → IsLifetime seen acc (String.◌∷◌ c s) n u
unfolding scan
scan_end true acc c String.[] n u d h = record {
  digits = "";
  all_digits = tt;
  some_digit = inl refl;
  spelled = rw nil-append (unit_of_sound c u (ground arith));
  value = ground arith;
}
scan_end false acc c String.[] n u d h = cc (d)
scan_end seen acc c (String.◌∷◌ c' s) n u d h = ground arith

scan_sound :
    (seen : Bool) (acc : ℕ) (s : String) (n : ℕ) (u : TimeUnit)
    → scan seen acc s ≡ some (n, u)
    → IsLifetime seen acc s n u
unfolding scan
scan_sound seen acc String.[] n u h = cc
scan_sound seen acc (String.◌∷◌ c s) n u h = elim (Bool-cases (is_digit (code c))) [
  | inl d ↦
      let r = scan_sound true (acc * 10 + (code c - 48)) s n u (rw d at h) in
      record {
        digits = String.◌∷◌ c r.digits;
        all_digits = (d, r.all_digits);
        some_digit = inr (λ e. cons≢nil e);
        spelled = rw cons-append (ap (String.◌∷◌ c) r.spelled);
        value = r.value;
      }
  | inr d ↦ scan_end seen acc c s n u d h
]

-- A text is read as a lifetime of `n` units exactly when it is one or more digits that make `n`,
-- followed by the letter of the unit and nothing else.
pub match_expiry_iff :
    (s : String) (n : ℕ) (u : TimeUnit)
    → (match_expiry s ≡ some (n, u))
      ↔ ((ds : String) × AllDigits ds × (ds ≢ "") × (decimal ds ≡ n) × (s ≡ ds +++ letter u))
unfolding match_expiry
match_expiry_iff s n u = (
  (λ h.
      let r = scan_sound false 0 s n u h in
      (r.digits, r.all_digits, elim r.some_digit [ inl e ↦ cc | inr e ↦ e ], r.value, r.spelled)),
  λ (ds, a, e, v, p). rw p (scan-digits false 0 ds u a (inr e) ∙ ap (λ k. some (k, u)) v),
)

-- The lifetime that the configuration accepts is at least a minute and a safe integer of seconds,
-- and the reader of token-revocation.ts makes the same of it, in milliseconds.
pub validate_jwt_expires_in_sound :
    (s : String) {n : ℕ}
    → validate_jwt_expires_in s ≡ ok n
    → (60 ≤ n) × (n ≤ max_safe_integer) × (parse_time_to_ms s ≡ n * 1000)
unfolding validate_jwt_expires_in parse_jwt_expires_in_to_seconds parse_time_to_ms
validate_jwt_expires_in_sound s h = ground arith
