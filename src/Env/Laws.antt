-- ===== src/Env/Laws.antt =====
-- Documented behaviour of what `Env` takes, as hypotheses for the theorems that rest on it.
use af_auth.Base.{ℕ, ◌+◌, ◌/◌, ◌≤◌, ◌<◌, String, Lacks, ◌≡◌, ◌≢◌, ◌⊎◌, Bool, true, none, some}
use af_auth.Base.Eff.{Thrown, ok, err}
use af_auth.Config.Expiry.{parse_jwt_expires_in_to_seconds}
use af_auth.Jwt.{verify_options}
use af_auth.Env.{Env, Payload, Service, RevokedToken, Claims, verified}

-- Prisma's `create` throws, or the row can be found by its unique column afterwards. That read may
-- fail, but it does not say that there is no row.
pub record CreateFound {S : Type 0} (env : Env S) : Type 0 where
  pub create_found :
      (row : RevokedToken) (s : S)
      → ((e : Thrown) × ((env.create_revoked row s).0 ≡ err e))
        ⊎ (env.find_revoked row.jti (env.create_revoked row s).1 ≢ ok none)

-- jsonwebtoken: what a token says does not depend on when it is verified.
pub record ClaimsFixed {S : Type 0} (env : Env S) : Type 0 where
  pub claims_fixed :
      (token : String) (t t' : ℕ) (c c' : Claims)
      → env.verify token env.config.jwt_public_key (verify_options env) t ≡ verified c
      → env.verify token env.config.jwt_public_key (verify_options env) t' ≡ verified c'
      → c ≡ c'

-- jsonwebtoken: a token with an `exp` claim verifies only before that time and the tolerance have
-- passed, in whole seconds.
pub record ExpiryRespected {S : Type 0} (env : Env S) : Type 0 where
  pub expiry_respected :
      (token : String) (t exp : ℕ) (c : Claims)
      → env.verify token env.config.jwt_public_key (verify_options env) t ≡ verified c
      → c.exp ≡ some exp
      → t / 1000 < exp + env.config.jwt_clock_tolerance

-- Prisma's `deleteMany` removes no row that its condition does not select, and `count` with the same
-- condition counts what it would remove.
pub record DeletesExpired {S : Type 0} (env : Env S) : Type 0 where
  pub keeps_row :
      (cutoff : ℕ) (jti : String) (row : RevokedToken) (s : S)
      → env.find_revoked jti s ≡ ok (some row)
      → cutoff ≤ row.token_expires_at
      → env.find_revoked jti (env.delete_expired_before cutoff s).1 ≢ ok none
  pub counts_deleted :
      (cutoff n : ℕ) (s : S)
      → (env.delete_expired_before cutoff s).0 ≡ ok n
      → env.count_expired_before cutoff s ≡ ok n

abbrev pub claims_of : Payload → ℕ → ℕ → Claims
claims_of p iat exp = record {
  sub = p.sub;
  github_id = p.github_id;
  jti = some p.jti;
  iat = some iat;
  exp = some exp;
  iss = some p.iss;
  aud = some p.aud;
}

-- jsonwebtoken, with the configured pair of keys: a token that was signed for a lifetime of
-- `seconds` (which the package reads as this program does) verifies with the same issuer and audience
-- while it lasts, and gives back what was signed.
pub record SignVerified {S : Type 0} (env : Env S) : Type 0 where
  pub sign_verified :
      (p : Payload) (t t' seconds : ℕ) (token : String)
      → env.sign p env.config.jwt_private_key env.config.jwt_expires_in t ≡ ok token
      → parse_jwt_expires_in_to_seconds env.config.jwt_expires_in ≡ ok seconds
      → p.iss ≡ env.config.jwt_issuer
      → p.aud ≡ env.config.jwt_audience
      → t ≤ t'
      → t' / 1000 < t / 1000 + seconds + env.config.jwt_clock_tolerance
      → env.verify token env.config.jwt_public_key (verify_options env) t'
        ≡ verified (claims_of p (t / 1000) (t / 1000 + seconds))

-- Prisma on the service registry: a write that returned shows in the row that is found next.
pub record ServicesWritten {S : Type 0} (env : Env S) : Type 0 where
  pub active_written :
      (identifier : String) (b : Bool) (row found : Service) (s : S)
      → (env.set_active identifier b s).0 ≡ ok row
      → env.find_service identifier (env.set_active identifier b s).1 ≡ ok (some found)
      → found.is_active ≡ b
  pub key_written :
      (identifier hashed : String) (t : ℕ) (row found : Service) (s : S)
      → (env.set_api_key identifier hashed t s).0 ≡ ok row
      → env.find_service identifier (env.set_api_key identifier hashed t s).1 ≡ ok (some found)
      → found.hashed_api_key ≡ hashed
  pub row_deleted :
      (identifier : String) (row found : Service) (s : S)
      → (env.delete_service identifier s).0 ≡ ok row
      → env.find_service identifier (env.delete_service identifier s).1 ≢ ok (some found)

-- bcrypt: a key matches the hash that was made of it.
pub record HashMatches {S : Type 0} (env : Env S) : Type 0 where
  pub hash_matches :
      (key hashed : String) (rounds : ℕ) (s : S)
      → (env.bcrypt_hash key rounds s).0 ≡ ok hashed
      → env.bcrypt_compare key hashed ≡ ok true

-- node's Buffer and ciphers: base64 decodes to what was encoded and holds no colon, and what was
-- sealed unseals under the same key, vector and tag, to a text in base64 too.
pub record CipherLaws {S : Type 0} (env : Env S) : Type 0 where
  pub base64_back : (x : String) → env.from_base64 (env.base64 x) ≡ x
  pub base64_lacks : (x : String) → Lacks b':' (env.base64 x)
  pub sealed_lacks :
      (key iv text sealed tag : String)
      → env.seal key iv text ≡ ok (sealed, tag)
      → Lacks b':' sealed
  pub unseal_back :
      (key iv text sealed tag : String)
      → env.seal key iv text ≡ ok (sealed, tag)
      → env.unseal key iv tag sealed ≡ ok text
