-- ===== src/Scripts/EncryptTokens/Tokens.antt =====
-- One column: what is encrypted is recognised, and a migrated token decrypts to what it was.
use af_auth.Base.{
  suc, String, ◌≡◌, refl, ap, ◌∙◌, true, false, Option, none, some, arith, ◌⊎◌, inl, inr,
  Bool-cases, truthy, split, length, ◌&&◌, not, str_eq→eq,
}
use af_auth.Base.Eff.{ok, World, Result-cases}
use af_auth.Env.{Env}
use af_auth.Env.Laws.{CipherLaws}
use af_auth.Encryption.{
  derive_key, encrypt, encrypt_github_token, decrypt_github_token, Parts, parts_of, join_parts,
}
use af_auth.Encryption.Format.{parts_of-join_parts, parts_of-length}
use af_auth.Encryption.Unchanged.{encrypt_github_token-db, decrypt_github_token-db}
use af_auth.Scripts.EncryptTokens.{is_token_encrypted, migrate_token, validated, same_text}

-- A column that the migration leaves alone: no token, or four parts.
abbrev pub Handled : Option String → Type 0
Handled column = (truthy column ≡ false) ⊎ (is_token_encrypted column ≡ true)

-- A column after its migration.
abbrev pub next_column : Option String → Option String → Option String
next_column old none = old
next_column old (some new) = some new

four_parts_given : (t : String) → length (split b':' t) ≡ 4 → truthy (some t) ≡ true
unfolding split
four_parts_given t four = elim (Bool-cases (truthy (some t))) [
  | inl e ↦ e
  | inr e ↦
      let same = str_eq→eq t "" (ground arith) in
      absurd (ground (arith, ap (λ x. length (split b':' x)) same))
]

parts-encrypted :
    (t : String) (p : Parts) → parts_of t ≡ some p → is_token_encrypted (some t) ≡ true
unfolding is_token_encrypted
parts-encrypted t p h = rw (four_parts_given t (parts_of-length t p h), parts_of-length t p h) refl

same_text_lem : (d : Option String) (t : String) → same_text d (some t) ≡ true → d ≡ some t
same_text_lem none t h = absurd (ground arith)
same_text_lem (some d) t h = ap some (str_eq→eq d t h)

module _ {S : Type 0} (env : Env S) (laws : CipherLaws env) where
  encrypt-recognised :
      (plaintext encrypted : String) (w : World S)
      → (encrypt env plaintext w).0 ≡ ok encrypted
      → is_token_encrypted (some encrypted) ≡ true
  unfolding encrypt
  encrypt-recognised plaintext encrypted w h =
      let salt : String = w.random w.drawn in
      let iv : String = w.random (suc w.drawn) in
      let drawn : World S = record w { drawn = suc (suc w.drawn) } in
      elim (Result-cases (derive_key env salt drawn).0) [
        | inl (key, e) ↦ elim (Result-cases (env.seal key iv plaintext)) [
          | inl ((sealed, tag), f) ↦
              let p : Parts = record {
                salt = env.base64 salt;
                iv = env.base64 iv;
                auth_tag = env.base64 tag;
                ciphertext = sealed;
              } in
              let made : encrypted ≡ join_parts p = ground (arith, e, f) in
              let whole : parts_of (join_parts p) ≡ some p = parts_of-join_parts p (
                laws.base64_lacks salt,
                laws.base64_lacks iv,
                laws.base64_lacks tag,
                laws.sealed_lacks key iv plaintext sealed tag f,
              ) in
              rw made (parts-encrypted (join_parts p) p whole)
          | inr (x, f) ↦ absurd (ground arith)
        ]
        | inr (x, e) ↦ absurd (ground arith)
      ]

  -- A column after its turn: it was left alone for a reason, or its plain text was replaced by an
  -- encryption of it.
  abbrev pub Outcome : Option String → Option String → Type 0
  Outcome token new =
      (Handled token × (new ≡ none))
      ⊎ ((encrypted : String) × (new ≡ some encrypted)
          × (truthy token ≡ true)
          × (is_token_encrypted token ≡ false)
          × (is_token_encrypted new ≡ true)
          × ((v : World S) × ((decrypt_github_token env (some encrypted) v).0 ≡ ok token)))

  pub migrate_token-Outcome :
      (token : Option String) (invalid : String) (new : Option String) (w : World S)
      → (migrate_token env token invalid w).0 ≡ ok new
      → Outcome token new
  unfolding migrate_token validated encrypt_github_token
  migrate_token-Outcome none invalid new w h = inl (inl refl, ground arith)
  migrate_token-Outcome (some t) invalid new w h = elim (Bool-cases (truthy (some t))) [
    | inr absent ↦ inl (inl absent, ground arith)
    | inl given ↦ elim (Bool-cases (is_token_encrypted (some t))) [
      | inl old ↦ inl (inr old, ground arith)
      | inr plain ↦ elim (Result-cases (encrypt env t w).0) [
        | inr (x, e) ↦ absurd (ground arith)
        | inl (c, e) ↦
            let v : World S = (encrypt env t w).1 in
            elim (Result-cases (decrypt_github_token env (some c) v).0) [
              | inr (x, f) ↦ absurd (ground arith)
              | inl (d, f) ↦ elim (Bool-cases (same_text d (some t))) [
                | inr other ↦ absurd (ground arith)
                | inl same ↦
                    let made : new ≡ some c = ground arith in
                    inr (
                      c,
                      made,
                      given,
                      plain,
                      rw made (encrypt-recognised t c w e),
                      (v, f ∙ ap ok (same_text_lem d t same)),
                    )
              ]
            ]
      ]
    ]
  ]

  pub migrate_token-db :
      (token : Option String) (invalid : String) (w : World S)
      → (migrate_token env token invalid w).1.db ≡ w.db
  unfolding migrate_token validated
  migrate_token-db token invalid w =
      let v : World S = (encrypt_github_token env token w).1 in
      elim (Bool-cases (truthy token && not (is_token_encrypted token))) [
        | inr skipped ↦ ground arith
        | inl taken ↦ elim (Result-cases (encrypt_github_token env token w).0) [
          | inr (x, e) ↦ ground (arith, encrypt_github_token-db env token w)
          | inl (c, e) ↦
              let same = decrypt_github_token-db env c v ∙ encrypt_github_token-db env token w in
              elim (Result-cases (decrypt_github_token env c v).0) [
                | inr (x, f) ↦ ground (arith, same)
                | inl (d, f) ↦ elim (Bool-cases (same_text d token)) [
                  | inr other ↦ ground (arith, same)
                  | inl equal ↦ ground (arith, same)
                ]
              ]
        ]
      ]
