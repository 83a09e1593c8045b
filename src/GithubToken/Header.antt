-- ===== src/GithubToken/Header.antt =====
-- The credentials that a service sends in its Authorization header.
use text.Mathlib.TextLemmas.{cons-append}
use af_auth.Base.{
  String, ◌≡◌, ◌≢◌, refl, false, some, arith, eq_iff, ◌+++◌, Lacks, split_first-append, starts_with,
  starts_with-append, substring_from-append,
}
use af_auth.Env.{Env}
use af_auth.GithubToken.{Credentials, split_credentials, extract_service_credentials}

abbrev pub joined : Credentials → String
joined c = c.service_identifier +++ String.◌∷◌ ":" c.api_key

-- Credentials that can be told apart in a header: something stands before and after the colon, and
-- the identifier holds no colon.
pub record IsSplittable (c : Credentials) : Type 0 where
  pub identifier_lacks : Lacks b':' c.service_identifier
  pub identifier_given : c.service_identifier ≢ ""
  pub key_given : c.api_key ≢ ""

split_credentials-joined :
    (c : Credentials) → IsSplittable c → split_credentials (joined c) ≡ some c
unfolding split_credentials
split_credentials-joined c h = ground (
  arith,
  split_first-append ":" c.service_identifier c.api_key h.identifier_lacks,
  eq_iff c.service_identifier "",
  eq_iff c.api_key "",
  h.identifier_given,
  h.key_given,
)

not_bearer : (s : String) → starts_with ("Basic " +++ s) "Bearer " ≡ false
unfolding starts_with
not_bearer s = rw (cons-append, cons-append) refl

module _ {S : Type 0} (env : Env S) where
  -- Credentials with something on both sides of the colon and no colon in the identifier are read
  -- back from the header "Bearer identifier:key", and from the header "Basic " with any text that
  -- decodes to "identifier:key"; the key may hold colons.
  pub extract_service_credentials-joined :
      (c : Credentials) (encoded : String)
      → IsSplittable c
      → env.base64_decode encoded ≡ joined c
      → (extract_service_credentials env (some ("Bearer " +++ joined c)) ≡ some c)
        × (extract_service_credentials env (some ("Basic " +++ encoded)) ≡ some c)
  unfolding extract_service_credentials
  extract_service_credentials-joined c encoded h e = (
    ground (
      arith,
      starts_with-append "Bearer " (joined c),
      substring_from-append "Bearer " (joined c),
      split_credentials-joined c h,
    ),
    ground (
      arith,
      e,
      starts_with-append "Basic " encoded,
      substring_from-append "Basic " encoded,
      split_credentials-joined c h,
      not_bearer encoded,
    ),
  )
