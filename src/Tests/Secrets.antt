-- ===== src/Tests/Secrets.antt =====
-- The theorem on the keys at the start, with texts that are their own encoding.
use af_auth.Base.{
  String, ◌≡◌, refl, Option, none, some, ◌===◌, if◌then◌else◌, starts_with, length_utf16,
}
use af_auth.Base.Eff.{ok}
use af_auth.Config.Expiry.{validate_jwt_expires_in, parse_jwt_expires_in_to_seconds, match_expiry}
use af_auth.Config.Secrets.{
  Secrets, load_secrets, get_required_env, get_base64_decoded_key, validate_base64, includes,
  is_blank, ◌and_then◌,
}

abbrev pub pem : String
pem = "-----BEGIN k -----END"

abbrev pub long_key : String
long_key = "0123456789abcdef0123456789abcdef"

-- The lifetime is not set.
abbrev variables : String → Option String
variables name =
    if name === "GITHUB_TOKEN_ENCRYPTION_KEY"
    then some long_key
    else if name === "JWT_EXPIRES_IN"
    then none
    else some pem

abbrev loaded : Secrets
loaded = record {
  jwt_private_key = pem;
  jwt_public_key = pem;
  github_token_encryption_key = long_key;
  jwt_expires_in = "30d";
}

loads : load_secrets variables (λ s. s) ≡ ok loaded
unfolding load_secrets get_required_env get_base64_decoded_key validate_base64 includes is_blank
    ◌and_then◌ starts_with length_utf16 validate_jwt_expires_in parse_jwt_expires_in_to_seconds
    match_expiry
loads = refl
