-- ===== src/Encryption.antt =====
-- src/utils/encryption.ts: AES-256-GCM under a key that PBKDF2 derives from the master key and a
-- salt, with the derived keys cached. The ciphers and the key derivation are node's, and parameters;
-- so is the content of a buffer, which stands here as a text.
pub mod Cache
pub mod Format
pub mod Unchanged
use af_auth.Base.{
  ℕ, String, Bool, true, false, Option, none, some, List, [], ◌∷◌, ◌===◌, ◌+++◌, split,
  if◌then◌else◌,
}
use af_auth.Base.Eff.{
  Result, ok, err, error, Thrown, World, Eff, pure, throw, lift, try_catch, random_text, ◌>>=◌,
  ◌>>◌,
}
use af_auth.Env.{Env}

-- `keyCache.get(saltKey)`
unfoldable pub cached : String → List (String × String) → Option String
cached salt_key [] = none
cached salt_key ((k, key) ∷ rest) = if k === salt_key then some key else cached salt_key rest

pub record Parts : Type 0 where
  pub salt : String
  pub iv : String
  pub auth_tag : String
  pub ciphertext : String

four_parts : List String → Option Parts
four_parts (salt ∷ iv ∷ auth_tag ∷ ciphertext ∷ []) =
    some (record { salt = salt; iv = iv; auth_tag = auth_tag; ciphertext = ciphertext })
four_parts _ = none

-- `encryptedData.split(':')`, which must have four parts.
unfoldable pub parts_of : String → Option Parts
unfolding four_parts
parts_of encrypted = four_parts (split b':' encrypted)

-- `[salt, iv, authTag, encrypted].join(':')`
unfoldable pub join_parts : Parts → String
join_parts p = p.salt +++ ":" +++ p.iv +++ ":" +++ p.auth_tag +++ ":" +++ p.ciphertext

module _ {S : Type 0} (env : Env S) where
  abbrev pub remember : String → String → Eff S (Unit {0})
  remember salt_key key w = (ok tt, record w { key_cache = (salt_key, key) ∷ w.key_cache })

  -- The derivation of a key that is not in the cache.
  pub derive_fresh : String → String → Option String → Eff S String
  derive_fresh salt salt_key (some key) = pure key
  derive_fresh salt salt_key none = do
    key ← lift (env.pbkdf2 env.config.token_encryption_key salt)
    remember salt_key key
    pure key

  -- `deriveKey(config.github.tokenEncryptionKey, salt)`
  unfoldable pub derive_key : String → Eff S String
  unfolding derive_fresh
  derive_key salt w = derive_fresh salt (env.base64 salt) (cached (env.base64 salt) w.key_cache) w

  abbrev pub encryption_failed : Thrown → Eff S String
  encryption_failed e = throw (error "Encryption failed")

  abbrev pub decryption_failed : Thrown → Eff S String
  decryption_failed e =
      throw (error "Decryption failed - data may be corrupted or key may be incorrect")

  unfoldable pub encrypt : String → Eff S String
  encrypt plaintext =
      try_catch
        (do
          salt ← random_text
          iv ← random_text
          key ← derive_key salt
          (encrypted, auth_tag) ← lift (env.seal key iv plaintext)
          pure (
              join_parts (record {
                salt = env.base64 salt;
                iv = env.base64 iv;
                auth_tag = env.base64 auth_tag;
                ciphertext = encrypted;
              })))
        encryption_failed

  -- A text of another form costs a derivation too, for a random salt.
  pub decrypt_parts : Option Parts → Eff S String
  decrypt_parts none = do
    salt ← random_text
    derive_key salt
    throw (error "Invalid encrypted data format")
  decrypt_parts (some p) = do
    key ← derive_key (env.from_base64 p.salt)
    lift (env.unseal key (env.from_base64 p.iv) (env.from_base64 p.auth_tag) p.ciphertext)

  unfoldable pub decrypt : String → Eff S String
  unfolding decrypt_parts
  decrypt encrypted = try_catch (decrypt_parts (parts_of encrypted)) decryption_failed

  unfoldable pub encrypt_github_token : Option String → Eff S (Option String)
  encrypt_github_token none = pure none
  encrypt_github_token (some token) = do encrypted ← encrypt token; pure (some encrypted)

  unfoldable pub decrypt_github_token : Option String → Eff S (Option String)
  decrypt_github_token none = pure none
  decrypt_github_token (some encrypted) = do token ← decrypt encrypted; pure (some token)
