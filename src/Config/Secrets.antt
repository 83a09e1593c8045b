-- ===== src/Config/Secrets.antt =====
-- src/config/index.ts: the keys and the lifetime of tokens that the program reads when it starts. A
-- text with what is wrong stops it. `process.env` and node's base64 reader, which skips what is not
-- base64, are parameters.
pub mod Loading
use af_auth.Base.{
  ℕ, String, Bool, true, false, not, ◌&&◌, ◌||◌, Option, none, some, List, [], ◌∷◌, ◌+++◌, ltb,
  is_space, if◌then◌else◌, truthy, or_else, show, starts_with, length_utf16,
}
use af_auth.Base.Eff.{Result, ok, err, Thrown, error, message}
use af_auth.Config.Expiry.{validate_jwt_expires_in}
use Prim.Native.Char.{code}

-- `s.trim() === ''`
unfoldable pub is_blank : String → Bool
is_blank String.[] = true
is_blank (String.◌∷◌ c s) = is_space (code c) && is_blank s

-- `s.includes(p)`
unfoldable pub includes : String → String → Bool
includes String.[] p = starts_with String.[] p
includes (String.◌∷◌ c s) p = starts_with (String.◌∷◌ c s) p || includes s p

infixl 5 ◌and_then◌
unfoldable pub ◌and_then◌ {ℓ ℓ'} : {A : Type ℓ} {B : Type ℓ'} → Result A → (A → Result B) → Result B
ok a and_then f = f a
err e and_then f = err e

pub record Secrets : Type 0 where
  pub jwt_private_key : String
  pub jwt_public_key : String
  pub github_token_encryption_key : String
  pub jwt_expires_in : String

-- `validateMinLength`
abbrev pub validate_min_length : String → String → ℕ → Result (Unit {0})
validate_min_length value name min_length =
    if ltb (length_utf16 value) min_length
    then err (
        error (
          name
          +++ " must be at least "
          +++ show min_length
          +++ " characters long (current: "
          +++ show (length_utf16 value)
          +++ ")"))
    else ok tt

module _ (env : String → Option String) where
  -- `getRequiredEnv`
  unfoldable pub get_required_env : String → Result String
  get_required_env key = elim (env key) [
    | none ↦ err (error ("Missing required environment variable: " +++ key))
    | some value ↦
        if not (truthy (some value)) || is_blank value
        then err (error ("Missing required environment variable: " +++ key))
        else ok value
  ]

  -- `getOptionalEnv`
  abbrev pub get_optional_env : String → String → String
  get_optional_env key default_value = or_else (env key) default_value

module _ (base64_decode : String → String) where
  -- The error of `validateBase64` is thrown and caught in it, and thrown again with more text.
  unfoldable pub validate_base64 : String → String → Result (Unit {0})
  validate_base64 value name =
      if truthy (some (base64_decode value))
      then ok tt
      else err (
          error (
            name
            +++ " must be a valid base64-encoded value: "
            +++ message (error (name +++ " appears to be empty after base64 decoding"))))

  -- `getBase64DecodedKey`
  unfoldable pub get_base64_decoded_key : String → String → Result String
  get_base64_decoded_key key name = validate_base64 key name and_then λ u.
      if not (includes (base64_decode key) "-----BEGIN")
        || not (includes (base64_decode key) "-----END")
      then err (
          error (
            name +++ " does not appear to be a valid PEM key after base64 decoding. "
            +++ "Expected PEM format with BEGIN and END markers."))
      else ok (base64_decode key)

module _ (env : String → Option String) (base64_decode : String → String) where
  -- The statements that validate and load the keys, in their order.
  unfoldable pub load_secrets : Result Secrets
  load_secrets = get_required_env env "JWT_PRIVATE_KEY" and_then λ private_b64.
      get_required_env env "JWT_PUBLIC_KEY" and_then λ public_b64.
      get_base64_decoded_key base64_decode private_b64 "JWT_PRIVATE_KEY" and_then λ private_key.
      get_base64_decoded_key base64_decode public_b64 "JWT_PUBLIC_KEY" and_then λ public_key.
      get_required_env env "GITHUB_TOKEN_ENCRYPTION_KEY" and_then λ encryption_key.
      validate_min_length encryption_key "GITHUB_TOKEN_ENCRYPTION_KEY" 32 and_then λ u.
      validate_jwt_expires_in (get_optional_env env "JWT_EXPIRES_IN" "30d") and_then λ seconds.
      ok (record {
        jwt_private_key = private_key;
        jwt_public_key = public_key;
        github_token_encryption_key = encryption_key;
        jwt_expires_in = get_optional_env env "JWT_EXPIRES_IN" "30d";
      })
