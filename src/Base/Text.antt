-- ===== src/Base/Text.antt =====
-- JavaScript's operations on a text, as recursions on the native `String`. Positions and lengths
-- count characters; where the code tests a length in UTF-16 units, `length_utf16` does.
use Prim.Native.Nat.{ℕ, zero, suc, ◌+◌, ◌-◌, ◌*◌, ◌/◌, ◌%◌}
use Prim.Native.Char.{Char, code}
use Prim.Native.String
use Prim.Native.String.{String}
use mathlib.Core.Path.{◌≡◌, refl, sym, ap, ap₂, subst, ◌∙◌}
use mathlib.Core.Bool.{Bool, true, false, ◌&&◌}
use mathlib.Core.Logic.{inl, inr}
use mathlib.Core.Option
use mathlib.Core.Option.{Option, none, some}
use mathlib.Core.List.{List, [], ◌∷◌}
use native.Mathlib.Omega.{arith}
use text.Mathlib.TextEquality.{Char-path}
use text.Mathlib.TextLemmas.{nil-append, cons-append}
use af_auth.Base.Tests.{◌==◌, ltb, if◌then◌else◌, Bool-cases}

infixr 66 ◌+++◌
-- `a + b` on texts
abbrev pub ◌+++◌ : String → String → String
a +++ b = String.◌++◌ a b

-- `s.startsWith(p)`
unfoldable pub starts_with : String → String → Bool
starts_with s String.[] = true
starts_with String.[] (String.◌∷◌ d p) = false
starts_with (String.◌∷◌ c s) (String.◌∷◌ d p) = code c == code d && starts_with s p

-- `s.substring(n)`
unfoldable pub substring_from : ℕ → String → String
substring_from zero s = s
substring_from (suc n) String.[] = String.[]
substring_from (suc n) (String.◌∷◌ c s) = substring_from n s

-- The number of UTF-16 units of a text, which is JavaScript's `s.length`.
unfoldable pub length_utf16 : String → ℕ
length_utf16 String.[] = 0
length_utf16 (String.◌∷◌ c s) = (if ltb (code c) 0x10000 then 1 else 2) + length_utf16 s

-- What stands before and after the first character `d` of a text, if there is one.
unfoldable pub split_first : ℕ → String → Option (String × String)
split_first d String.[] = none
split_first d (String.◌∷◌ c s) =
    let rest = split_first d s in
    if code c == d
    then some (String.[], s)
    else Option.map (λ (p : String × String). (String.◌∷◌ c p.0, p.1)) rest

-- No character of a text is `d`.
abbrev pub Lacks : ℕ → String → Type 0
Lacks d String.[] = Unit
Lacks d (String.◌∷◌ c s) = (¬ (code c ≡ d)) × Lacks d s

-- A text without `d`, then `d`, then anything, splits at that place.
pub split_first-append :
    (d : Char) (a b : String)
    → Lacks (code d) a
    → split_first (code d) (a +++ String.◌∷◌ d b) ≡ some (a, b)
unfolding split_first
split_first-append d String.[] b h = rw nil-append (ground arith)
split_first-append d (String.◌∷◌ c a) b h =
    rw cons-append (ground (arith, split_first-append d a b h.1))

abbrev grow : Char → List String → List String
grow c [] = []
grow c (p ∷ ps) = String.◌∷◌ c p ∷ ps

-- `s.split(d)` at a single character: one part more than there are separators.
unfoldable pub split : ℕ → String → List String
split d String.[] = String.[] ∷ []
split d (String.◌∷◌ c s) =
    let rest = split d s in if code c == d then String.[] ∷ rest else grow c rest

pub split-Lacks : (d : ℕ) (a : String) → Lacks d a → split d a ≡ a ∷ []
unfolding split
split-Lacks d String.[] h = refl
split-Lacks d (String.◌∷◌ c a) h = ground (arith, split-Lacks d a h.1)

pub split-append :
    (d : Char) (a b : String)
    → Lacks (code d) a
    → split (code d) (a +++ String.◌∷◌ d b) ≡ a ∷ split (code d) b
unfolding split
split-append d String.[] b h = rw nil-append (ground arith)
split-append d (String.◌∷◌ c a) b h = rw cons-append (ground (arith, split-append d a b h.1))

pub starts_with-append : (p s : String) → starts_with (p +++ s) p ≡ true
unfolding starts_with
starts_with-append String.[] s = refl
starts_with-append (String.◌∷◌ c p) s = rw cons-append (ground (arith, starts_with-append p s))

abbrev pub size : String → ℕ
size String.[] = 0
size (String.◌∷◌ c s) = suc (size s)

-- A text that starts with `p` is `p` and what follows at its length.
pub starts_with-split :
    (s p : String) → starts_with s p ≡ true → s ≡ p +++ substring_from (size p) s
unfolding starts_with substring_from
starts_with-split s String.[] h = sym (nil-append s)
starts_with-split String.[] (String.◌∷◌ d p) h = cc
starts_with-split (String.◌∷◌ c s) (String.◌∷◌ d p) h =
    rw cons-append
      (ap₂ String.◌∷◌ (Char-path c d (ground arith)) (starts_with-split s p (ground arith)))

pub substring_from-append : (p s : String) → substring_from (size p) (p +++ s) ≡ s
unfolding substring_from
substring_from-append String.[] s = nil-append s
substring_from-append (String.◌∷◌ c p) s = rw cons-append (substring_from-append p s)

-- The digits that `parseInt` and `BigInt` read, behind the value `acc`.
abbrev pub decimal_from : ℕ → String → ℕ
decimal_from acc String.[] = acc
decimal_from acc (String.◌∷◌ c s) = decimal_from (acc * 10 + (code c - 48)) s

abbrev pub decimal : String → ℕ
decimal s = decimal_from 0 s

abbrev digit : ℕ → Char
digit d =
    if d == 0
    then "0"
    else if d == 1
    then "1"
    else if d == 2
    then "2"
    else if d == 3
    then "3"
    else if d == 4
    then "4"
    else if d == 5
    then "5"
    else if d == 6
    then "6"
    else if d == 7
    then "7"
    else if d == 8
    then "8"
    else "9"

show_digits : ℕ → ℕ → String → String
show_digits zero n acc = acc
show_digits (suc fuel) n acc =
    let more = show_digits fuel (n / 10) (String.◌∷◌ (digit (n % 10)) acc) in
    if ltb n 10 then String.◌∷◌ (digit n) acc else more

-- `n.toString()`; `n` halves at least at each digit, so `n + 1` rounds are enough.
unfoldable pub show : ℕ → String
unfolding show_digits
show n = show_digits (suc n) n ""

show_test : (show 0 ≡ "0") × (show 90210 ≡ "90210") × (decimal (show 8675309) ≡ 8675309)
unfolding show
show_test = (refl, refl, refl)

-- The parts of a text, put together again.
abbrev pub joined_by : Char → List String → String
joined_by d [] = String.[]
joined_by d (p ∷ []) = p
joined_by d (p ∷ q ∷ ps) = p +++ String.◌∷◌ d (joined_by d (q ∷ ps))

abbrev pub AllLack : ℕ → List String → Type 0
AllLack d [] = Unit
AllLack d (p ∷ ps) = Lacks d p × AllLack d ps

joined_by-grow :
    (d c : Char) (p : String) (ps : List String)
    → joined_by d (grow c (p ∷ ps)) ≡ String.◌∷◌ c (joined_by d (p ∷ ps))
joined_by-grow d c p [] = refl
joined_by-grow d c p (q ∷ ps) = cons-append c p _

-- A text has a first part, its parts are the text when they are put together again, and the
-- separator is in none of them.
split_lem :
    (d : Char) (s : String)
    → (p : String) × (ps : List String) × (split (code d) s ≡ p ∷ ps)
      × (joined_by d (p ∷ ps) ≡ s)
      × AllLack (code d) (p ∷ ps)
unfolding split
split_lem d String.[] = (String.[], [], refl, refl, (tt, tt))
split_lem d (String.◌∷◌ c s) =
    let (p, ps, e, j, l) = split_lem d s in
    elim (Bool-cases (code c == code d)) [
      | inl same ↦ (
        String.[],
        p ∷ ps,
        rw (same, e) refl,
        nil-append _ ∙ ap₂ String.◌∷◌ (Char-path d c (ground arith)) j,
        (tt, l),
      )
      | inr other ↦ (
        String.◌∷◌ c p,
        ps,
        rw (other, e) refl,
        joined_by-grow d c p ps ∙ ap (String.◌∷◌ c) j,
        (((λ q. ground arith), l.0), l.1),
      )
    ]

pub joined_by-split :
    (d : Char) (s : String) (ps : List String)
    → split (code d) s ≡ ps
    → (joined_by d ps ≡ s) × AllLack (code d) ps
joined_by-split d s ps h =
    let (p, qs, e, j, l) = split_lem d s in
    subst (λ x. (joined_by d x ≡ s) × AllLack (code d) x) (sym e ∙ h) (j, l)
