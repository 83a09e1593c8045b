-- ===== src/Config/Expiry.antt =====
-- src/config/index.ts, the lifetime of a token: `JWT_EXPIRES_IN` ("30d", "24h", "60m", "3600s").
-- `parseTimeToMs` of src/services/token-revocation.ts reads the same texts, and stands here too.
-- A number above 2^53 is a rounded float in the source and exact here; rounding keeps the order, so
-- every comparison with `Number.MAX_SAFE_INTEGER` comes out the same.
pub mod Laws
use Prim.Native.Char.{code}
use Prim.Native.String
use mathlib.Core.Option
use af_auth.Base.{
  ℕ, ◌+◌, ◌-◌, ◌*◌, ◌^◌, String, Bool, true, false, ◌&&◌, Option, none, some, leb, ltb, ◌==◌,
  if◌then◌else◌, show, ◌+++◌,
}
use af_auth.Base.Eff.{Result, ok, err, error, Eff, throw, pure, lift, now, ◌>>=◌, ◌>>◌}

pub data TimeUnit : Type 0 where
  second minute hour day : TimeUnit

abbrev pub is_digit : ℕ → Bool
is_digit c = leb b'0' c && leb c b'9'

abbrev pub unit_of : ℕ → Option TimeUnit
unit_of c =
    if c == b's'
    then some second
    else if c == b'm'
    then some minute
    else if c == b'h'
    then some hour
    else if c == b'd'
    then some day
    else none

abbrev is_empty : String → Bool
is_empty String.[] = true
is_empty (String.◌∷◌ c s) = false

abbrev with_value : ℕ → TimeUnit → ℕ × TimeUnit
with_value n u = (n, u)

-- The match of `^(\d+)([smhd])$` behind some digits: `seen` says whether there were any, `value` is
-- the number that they make.
scan : Bool → ℕ → String → Option (ℕ × TimeUnit)
scan seen value String.[] = none
scan seen value (String.◌∷◌ c s) =
    let rest = scan true (value * 10 + (code c - 48)) s in
    if is_digit (code c)
    then rest
    else if seen && is_empty s
    then Option.map (with_value value) (unit_of (code c))
    else none

unfoldable pub match_expiry : String → Option (ℕ × TimeUnit)
unfolding scan
match_expiry s = scan false 0 s

abbrev pub seconds_of : TimeUnit → ℕ
seconds_of second = 1
seconds_of minute = 60
seconds_of hour = 60 * 60
seconds_of day = 24 * 60 * 60

abbrev pub max_safe_integer : ℕ
max_safe_integer = 9007199254740991

abbrev invalid_format : Result ℕ
invalid_format = err (error "Invalid JWT expiration format")

-- `parseJWTExpiresInToSeconds`; the messages leave out the value that the source puts in.
unfoldable pub parse_jwt_expires_in_to_seconds : String → Result ℕ
parse_jwt_expires_in_to_seconds expires_in = elim (match_expiry expires_in) [
  | none ↦ invalid_format
  | some (value, unit) ↦
      if ltb max_safe_integer (value * seconds_of unit)
      then err (error "JWT expiration value too large")
      else ok (value * seconds_of unit)
]

abbrev check_seconds : ℕ → Result ℕ
check_seconds seconds =
    if leb seconds 0
    then err (error "JWT_EXPIRES_IN value must be positive")
    else if ltb seconds 60
    then err (error "JWT_EXPIRES_IN is too short")
    else ok seconds

-- `validateJWTExpiresIn`, which returns nothing; here the seconds that passed. Its warnings about
-- very short and very long lifetimes only print.
unfoldable pub validate_jwt_expires_in : String → Result ℕ
validate_jwt_expires_in expires_in = elim (parse_jwt_expires_in_to_seconds expires_in) [
  | ok seconds ↦ check_seconds seconds
  | err e ↦ err e
]

-- `parseTimeToMs` of token-revocation.ts: thirty days where the text has another form.
unfoldable pub parse_time_to_ms : String → ℕ
parse_time_to_ms time = elim (match_expiry time) [
  | none ↦ 30 * 24 * 60 * 60 * 1000
  | some (value, unit) ↦ value * seconds_of unit * 1000
]

-- `calculateJWTExpiration`, at the configured lifetime. The clock is read twice. The source's
-- difference `MAX_SAFE_INTEGER - Date.now()` is written as a sum, since it may be negative.
unfoldable pub calculate_jwt_expiration : {S : Type 0} → String → Eff S ℕ
calculate_jwt_expiration expires_in = do
  seconds ← lift (parse_jwt_expires_in_to_seconds expires_in)
  t ← now
  if ltb max_safe_integer (seconds * 1000 + t)
      then throw (error "JWT expiration calculation would overflow")
      else (do t' ← now; pure (t' + seconds * 1000))

abbrev unit_name : ℕ → TimeUnit → String
unit_name n second = if n == 1 then "second" else "seconds"
unit_name n minute = if n == 1 then "minute" else "minutes"
unit_name n hour = if n == 1 then "hour" else "hours"
unit_name n day = if n == 1 then "day" else "days"

-- `getJWTExpirationDescription`, at the configured lifetime.
unfoldable pub get_jwt_expiration_description : String → String
get_jwt_expiration_description expires_in = elim (match_expiry expires_in) [
  | none ↦ expires_in
  | some (value, unit) ↦ show value +++ " " +++ unit_name value unit
]
