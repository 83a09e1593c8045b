-- ===== src/Encryption/Unchanged.antt =====
-- Encrypting touches nothing outside the process.
use af_auth.Base.{suc, String, ◌≡◌, refl, Option, none, some, arith, inl, inr, Option-cases}
use af_auth.Base.Eff.{World, Result-cases}
use af_auth.Env.{Env}
use af_auth.Encryption.{
  cached, derive_key, encrypt, encrypt_github_token, decrypt, decrypt_parts, parts_of, Parts,
  decrypt_github_token,
}

module _ {S : Type 0} (env : Env S) where
  derive_key-db : (salt : String) (w : World S) → (derive_key env salt w).1.db ≡ w.db
  unfolding derive_key
  derive_key-db salt w = elim (Option-cases (cached (env.base64 salt) w.key_cache)) [
    | inl e ↦ elim (Result-cases (env.pbkdf2 env.config.token_encryption_key salt)) [
      | inl (key, f) ↦ ground arith
      | inr (x, f) ↦ ground arith
    ]
    | inr (key, e) ↦ ground arith
  ]

  encrypt-db : (plaintext : String) (w : World S) → (encrypt env plaintext w).1.db ≡ w.db
  unfolding encrypt
  encrypt-db plaintext w =
      let salt : String = w.random w.drawn in
      let drawn : World S = record w { drawn = suc (suc w.drawn) } in
      let same = derive_key-db salt drawn in
      elim (Result-cases (derive_key env salt drawn).0) [
        | inl (key, e) ↦ elim (Result-cases (env.seal key (w.random (suc w.drawn)) plaintext)) [
          | inl ((sealed, tag), f) ↦ ground (arith, same)
          | inr (x, f) ↦ ground (arith, same)
        ]
        | inr (x, e) ↦ ground (arith, same)
      ]

  pub encrypt_github_token-db :
      (token : Option String) (w : World S) → (encrypt_github_token env token w).1.db ≡ w.db
  unfolding encrypt_github_token
  encrypt_github_token-db none w = refl
  encrypt_github_token-db (some t) w = elim (Result-cases (encrypt env t w).0) [
    | inl (e, f) ↦ ground (arith, encrypt-db t w)
    | inr (x, f) ↦ ground (arith, encrypt-db t w)
  ]

  parts-db : (found : Option Parts) (w : World S) → (decrypt_parts env found w).1.db ≡ w.db
  unfolding decrypt_parts
  parts-db none w =
      let drawn : World S = record w { drawn = suc w.drawn } in
      let same = derive_key-db (w.random w.drawn) drawn in
      elim (Result-cases (derive_key env (w.random w.drawn) drawn).0) [
        | inl (key, e) ↦ ground (arith, same)
        | inr (x, e) ↦ ground (arith, same)
      ]
  parts-db (some p) w = elim (Result-cases (derive_key env (env.from_base64 p.salt) w).0) [
    | inl (key, e) ↦ ground (arith, derive_key-db (env.from_base64 p.salt) w)
    | inr (x, e) ↦ ground (arith, derive_key-db (env.from_base64 p.salt) w)
  ]

  decrypt-db : (encrypted : String) (w : World S) → (decrypt env encrypted w).1.db ≡ w.db
  unfolding decrypt
  decrypt-db encrypted w = elim (Result-cases (decrypt_parts env (parts_of encrypted) w).0) [
    | inl (t, e) ↦ ground (arith, parts-db (parts_of encrypted) w)
    | inr (x, e) ↦ ground (arith, parts-db (parts_of encrypted) w)
  ]

  pub decrypt_github_token-db :
      (token : Option String) (w : World S) → (decrypt_github_token env token w).1.db ≡ w.db
  unfolding decrypt_github_token
  decrypt_github_token-db none w = refl
  decrypt_github_token-db (some t) w = elim (Result-cases (decrypt env t w).0) [
    | inl (e, f) ↦ ground (arith, decrypt-db t w)
    | inr (x, f) ↦ ground (arith, decrypt-db t w)
  ]
