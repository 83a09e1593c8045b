-- ===== src/Base/Spaces.antt =====
-- JavaScript's `trim`, `parseInt` and changes of case, on characters.
use Prim.Native.Nat.{ℕ, ◌+◌, ◌-◌, ◌*◌}
use Prim.Native.Char.{Char, code}
use Prim.Native.String.{String}
use mathlib.Core.Bool.{Bool, ◌&&◌, ◌||◌}
use mathlib.Core.Option.{Option, none, some}
use mathlib.Core.List.{[], ◌∷◌}
use af_auth.Base.Tests.{◌==◌, leb, if◌then◌else◌}
use af_auth.Base.Lists.{any}
use af_auth.Base.Int.{ℤ, pos, negsuc}
use af_auth.Base.Text.{show, ◌+++◌}

-- The characters that `trim` takes off.
abbrev pub is_space : ℕ → Bool
is_space c =
    (leb 9 c && leb c 13)
    || (leb 8192 c && leb c 8202)
    || any (λ d. d == c) (32 ∷ 160 ∷ 5760 ∷ 8232 ∷ 8233 ∷ 8239 ∷ 8287 ∷ 12288 ∷ 65279 ∷ [])

unfoldable pub trim_start : String → String
trim_start String.[] = String.[]
trim_start (String.◌∷◌ c s) =
    let rest = trim_start s in if is_space (code c) then rest else String.◌∷◌ c s

-- What is in front of a space that ends the text.
abbrev trimmed : Char → String → String
trimmed c String.[] = if is_space (code c) then String.[] else String.◌∷◌ c String.[]
trimmed c (String.◌∷◌ d s) = String.◌∷◌ c (String.◌∷◌ d s)

unfoldable pub trim_end : String → String
trim_end String.[] = String.[]
trim_end (String.◌∷◌ c s) = trimmed c (trim_end s)

-- `s.trim()`
unfoldable pub trim : String → String
unfolding trim_start trim_end
trim s = trim_end (trim_start s)

abbrev is_decimal : ℕ → Bool
is_decimal c = leb 48 c && leb c 57

-- The digits at the start, behind the value `acc`; `none` if there was no digit at all.
abbrev digits_from : Option ℕ → String → Option ℕ
digits_from acc String.[] = acc
digits_from acc (String.◌∷◌ c s) =
    let more = digits_from (some (elim acc [ none ↦ 0 | some n ↦ n ] * 10 + (code c - 48))) s in
    if is_decimal (code c) then more else acc

abbrev positive : Option ℕ → Option ℤ
positive none = none
positive (some n) = some (pos n)

-- `-0` is 0.
abbrev negative : Option ℕ → Option ℤ
negative none = none
negative (some ℕ.zero) = some (pos 0)
negative (some (ℕ.suc n)) = some (negsuc n)

abbrev signed : String → Option ℤ
signed String.[] = none
signed (String.◌∷◌ c s) =
    if code c == b'-'
    then negative (digits_from none s)
    else if code c == b'+'
    then positive (digits_from none s)
    else positive (digits_from none (String.◌∷◌ c s))

-- `parseInt(s, 10)`; `none` is NaN. What follows the digits is not looked at, and the rounding of
-- numbers above 2^53 is left out.
unfoldable pub parse_int : String → Option ℤ
unfolding trim_start
parse_int s = signed (trim_start s)

-- A number of either sign in decimal.
abbrev pub show_ℤ : ℤ → String
show_ℤ (pos n) = show n
show_ℤ (negsuc n) = "-" +++ show (ℕ.suc n)

-- The letter at the place of `c` in the second text, if it is in the first.
abbrev exchange : String → String → Char → Char
exchange (String.◌∷◌ a as') (String.◌∷◌ b bs) c =
    let rest = exchange as' bs c in if code a == code c then b else rest
exchange String.[] t c = c
exchange (String.◌∷◌ a as') String.[] c = c

abbrev small_letters : String
small_letters = "abcdefghijklmnopqrstuvwxyz"

abbrev capitals : String
capitals = "ABCDEFGHIJKLMNOPQRSTUVWXYZ"

abbrev pub lower_letter : Char → Char
lower_letter c = exchange capitals small_letters c

-- `s.toLowerCase()` and `s.toUpperCase()`, on the letters of ASCII.
unfoldable pub to_lower_case : String → String
to_lower_case String.[] = String.[]
to_lower_case (String.◌∷◌ c s) = String.◌∷◌ (lower_letter c) (to_lower_case s)

unfoldable pub to_upper_case : String → String
to_upper_case String.[] = String.[]
to_upper_case (String.◌∷◌ c s) = String.◌∷◌ (exchange small_letters capitals c) (to_upper_case s)
