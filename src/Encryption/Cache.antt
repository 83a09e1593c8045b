-- ===== src/Encryption/Cache.antt =====
-- The cache of derived keys changes no result, and what is encrypted decrypts.
use af_auth.Base.{
  suc, String, ◌≡◌, refl, sym, ap, ◌∙◌, Option, none, some, arith, inl, inr, eq_iff, Bool-cases,
  ◌===◌,
}
use af_auth.Base.Eff.{ok, World, Result-cases}
use af_auth.Env.{Env}
use af_auth.Env.Laws.{CipherLaws}
use af_auth.Encryption.{
  cached, remember, derive_key, derive_fresh, encrypt, decrypt, decrypt_parts, Parts, parts_of,
  join_parts,
}
use af_auth.Encryption.Format.{parts_of-join_parts}

module _ {S : Type 0} (env : Env S) where
  -- Every key in the cache is the one that would be derived for its salt.
  pub record IsSound (w : World S) : Type 0 where
    pub same :
        (salt key : String)
        → cached (env.base64 salt) w.key_cache ≡ some key
        → env.pbkdf2 env.config.token_encryption_key salt ≡ ok key

module _ {S : Type 0} (env : Env S) (laws : CipherLaws env) where
  base64_injective : (x y : String) → env.base64 x ≡ env.base64 y → x ≡ y
  base64_injective x y h = sym (laws.base64_back x) ∙ ap env.from_base64 h ∙ laws.base64_back y

  remember-IsSound :
      (salt key : String) (w : World S)
      → IsSound env w
      → env.pbkdf2 env.config.token_encryption_key salt ≡ ok key
      → IsSound env (remember env (env.base64 salt) key w).1
  unfolding cached
  remember-IsSound salt key w sound derived = record {
    same = λ salt' key' h. elim (Bool-cases (env.base64 salt === env.base64 salt')) [
      | inl e ↦
          let one : salt ≡ salt' = base64_injective salt salt' ((eq_iff _ _).0 e) in
          ground (arith, one)
      | inr e ↦ sound.same salt' key' (ground arith)
    ];
  }

  derive_fresh-IsSound :
      (salt : String) (found : Option String) (w : World S)
      → IsSound env w
      → cached (env.base64 salt) w.key_cache ≡ found
      → ((derive_fresh env salt (env.base64 salt) found w).0
          ≡ env.pbkdf2 env.config.token_encryption_key salt)
        × IsSound env (derive_fresh env salt (env.base64 salt) found w).1
        × ((derive_fresh env salt (env.base64 salt) found w).1.db ≡ w.db)
  unfolding derive_fresh
  derive_fresh-IsSound salt (some key) w sound e = (sym (sound.same salt key e), sound, refl)
  derive_fresh-IsSound salt none w sound e =
      elim (Result-cases (env.pbkdf2 env.config.token_encryption_key salt)) [
        | inl (key, d) ↦ rw d (refl, remember-IsSound salt key w sound d, refl)
        | inr (x, d) ↦ rw d (refl, sound, refl)
      ]

  -- With a sound cache a derivation gives what PBKDF2 gives, and leaves a sound cache and the same
  -- database.
  pub derive_key-IsSound :
      (salt : String) (w : World S)
      → IsSound env w
      → ((derive_key env salt w).0 ≡ env.pbkdf2 env.config.token_encryption_key salt)
        × IsSound env (derive_key env salt w).1
        × ((derive_key env salt w).1.db ≡ w.db)
  unfolding derive_key
  derive_key-IsSound salt w sound =
      derive_fresh-IsSound salt (cached (env.base64 salt) w.key_cache) w sound refl

  abbrev sealed_parts : String → String → String → String → Parts
  sealed_parts salt iv tag sealed = record {
    salt = env.base64 salt;
    iv = env.base64 iv;
    auth_tag = env.base64 tag;
    ciphertext = sealed;
  }

  sealed-decrypts :
      (salt key iv tag sealed plaintext : String) (v : World S)
      → IsSound env v
      → env.pbkdf2 env.config.token_encryption_key salt ≡ ok key
      → env.seal key iv plaintext ≡ ok (sealed, tag)
      → (decrypt env (join_parts (sealed_parts salt iv tag sealed)) v).0 ≡ ok plaintext
  unfolding decrypt decrypt_parts
  sealed-decrypts salt key iv tag sealed plaintext v sound derived closed =
      let p = sealed_parts salt iv tag sealed in
      let whole : parts_of (join_parts p) ≡ some p = parts_of-join_parts p (
        laws.base64_lacks salt,
        laws.base64_lacks iv,
        laws.base64_lacks tag,
        laws.sealed_lacks key iv plaintext sealed tag closed,
      ) in
      let (same, _, _) = derive_key-IsSound (env.from_base64 (env.base64 salt)) v sound in
      ground (
        arith,
        whole,
        same,
        derived,
        laws.base64_back salt,
        laws.base64_back iv,
        laws.base64_back tag,
        laws.unseal_back key iv plaintext sealed tag closed,
      )

  -- What `encrypt` returned decrypts to the plaintext, in any world whose cache is sound, such as
  -- that of another process with the same master key.
  pub decrypt-encrypt :
      (plaintext encrypted : String) (w v : World S)
      → IsSound env w
      → IsSound env v
      → (encrypt env plaintext w).0 ≡ ok encrypted
      → (decrypt env encrypted v).0 ≡ ok plaintext
  unfolding encrypt
  decrypt-encrypt plaintext encrypted w v sound sound' h =
      let salt = w.random w.drawn in
      let iv = w.random (suc w.drawn) in
      let drawn : World S = record w { drawn = suc (suc w.drawn) } in
      let (same, _, _) = derive_key-IsSound salt drawn (record { same = sound.same }) in
      elim (Result-cases (env.pbkdf2 env.config.token_encryption_key salt)) [
        | inl (key, d) ↦ elim (Result-cases (env.seal key iv plaintext)) [
          | inl ((sealed, tag), c) ↦
              let made : encrypted ≡ join_parts (sealed_parts salt iv tag sealed) =
                ground (arith, same) in
              rw made (sealed-decrypts salt key iv tag sealed plaintext v sound' d c)
          | inr (x, c) ↦ absurd (ground (arith, same))
        ]
        | inr (x, d) ↦ absurd (ground (arith, same))
      ]
