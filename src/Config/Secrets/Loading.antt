-- ===== src/Config/Secrets/Loading.antt =====
-- When the program starts with the keys it is given.
use af_auth.Base.{
  ℕ, String, ◌≡◌, ◌↔◌, ◌≤◌, refl, ap, subst, true, false, Option, some, inl, inr, arith, truthy,
  length_utf16, starts_with, Option-cases, Bool-cases, str_eq→eq,
}
use af_auth.Base.Eff.{Result, ok, err}
use af_auth.Config.Expiry.{validate_jwt_expires_in}
use af_auth.Config.Secrets.{
  Secrets, includes, is_blank, ◌and_then◌, get_required_env, get_optional_env, validate_base64,
  get_base64_decoded_key, validate_min_length, load_secrets,
}

pub and_then-ok {ℓ ℓ'} :
    {A : Type ℓ} {B : Type ℓ'} {b : B} (m : Result A) (f : A → Result B)
    → (m and_then f) ≡ ok b
    → (a : A) × (m ≡ ok a) × (f a ≡ ok b)
unfolding ◌and_then◌
and_then-ok (ok a) f h = (a, refl, h)
and_then-ok (err e) f h = absurd (ground arith)

-- The same for a proof that goes on with the value.
pub and_then-elim {ℓ ℓ' κ} :
    {A : Type ℓ} {B : Type ℓ'} {C : Type κ} {m : Result A} {f : A → Result B} {b : B}
    → (m and_then f) ≡ ok b
    → ((a : A) → m ≡ ok a → f a ≡ ok b → C)
    → C
and_then-elim {m} {f} h go = let (a, e, k) = and_then-ok m f h in go a e k

blank_lem : (value : String) → is_blank value ≡ false → truthy (some value) ≡ true
unfolding is_blank
blank_lem value h = elim (Bool-cases (truthy (some value))) [
  | inl e ↦ e
  | inr e ↦
      let same = str_eq→eq value "" (ground arith) in absurd (ground (arith, ap is_blank same))
]

marked_lem : (value : String) → includes value "-----BEGIN" ≡ true → truthy (some value) ≡ true
unfolding includes starts_with
marked_lem value h = elim (Bool-cases (truthy (some value))) [
  | inl e ↦ e
  | inr e ↦
      let same = str_eq→eq value "" (ground arith) in
      absurd (ground (arith, ap (λ s. includes s "-----BEGIN") same))
]

long_iff :
    (value name : String) → (validate_min_length value name 32 ≡ ok tt) ↔ (32 ≤ length_utf16 value)
long_iff value name = ((λ h. ground arith), λ h. ground arith)

pub ok_lem {ℓ} : {A : Type ℓ} {a b : A} → ◌≡◌ {A = Result A} (ok a) (ok b) → a ≡ b
ok_lem {a} e = ap (λ r. elim r [ ok v ↦ v | err x ↦ a ]) e

module _ (env : String → Option String) (base64_decode : String → String) where
  -- The variable is there, and is not only white space.
  abbrev pub IsGiven : String → String → Type 0
  IsGiven name value = (env name ≡ some value) × (is_blank value ≡ false)

  -- The text decodes to the key, which has both markers of a PEM text.
  abbrev pub Decodes : String → String → Type 0
  Decodes value key =
      (base64_decode value ≡ key)
      × (includes key "-----BEGIN" ≡ true)
      × (includes key "-----END" ≡ true)

  abbrev pub IsPem : String → String → Type 0
  IsPem name key = (value : String) × (IsGiven name value × Decodes value key)

  abbrev pub CanStart : Secrets → Type 0
  CanStart r =
      IsPem "JWT_PRIVATE_KEY" r.jwt_private_key
      × IsPem "JWT_PUBLIC_KEY" r.jwt_public_key
      × IsGiven "GITHUB_TOKEN_ENCRYPTION_KEY" r.github_token_encryption_key
      × (32 ≤ length_utf16 r.github_token_encryption_key)
      × (get_optional_env env "JWT_EXPIRES_IN" "30d" ≡ r.jwt_expires_in)
      × ((n : ℕ) × (validate_jwt_expires_in r.jwt_expires_in ≡ ok n))

  pub required_iff :
      (name value : String) → (get_required_env env name ≡ ok value) ↔ IsGiven name value
  unfolding get_required_env
  required_iff name value = (
    (λ h. elim (Option-cases (env name)) [
      | inl e ↦ absurd (ground arith)
      | inr (v, e) ↦ elim (Bool-cases (is_blank v)) [
        | inl blank ↦ absurd (ground arith)
        | inr filled ↦ (ground arith, ground arith)
      ]
    ]),
    λ (e, given). rw (get_required_env, e, blank_lem value given, given) refl,
  )

  key_iff :
      (value name key : String)
      → (get_base64_decoded_key base64_decode value name ≡ ok key) ↔ Decodes value key
  unfolding get_base64_decoded_key validate_base64 ◌and_then◌
  key_iff value name key = (
    (λ h. elim (Bool-cases (truthy (some (base64_decode value)))) [
      | inl there ↦ elim (Bool-cases (includes (base64_decode value) "-----BEGIN")) [
        | inl begins ↦ elim (Bool-cases (includes (base64_decode value) "-----END")) [
          | inl ends ↦
              let same : base64_decode value ≡ key = ground arith in
              (
                same,
                subst (λ k. includes k "-----BEGIN" ≡ true) same begins,
                subst (λ k. includes k "-----END" ≡ true) same ends,
              )
          | inr open_ended ↦ absurd (ground arith)
        ]
        | inr unbegun ↦ absurd (ground arith)
      ]
      | inr empty ↦ absurd (ground arith)
    ]),
    λ (e, begins, ends). rw (e, marked_lem key begins, begins, ends) refl,
  )

  load_secrets_sound : (r : Secrets) → load_secrets env base64_decode ≡ ok r → CanStart r
  unfolding load_secrets
  load_secrets_sound r h =
      let (a, given_a, h) = and_then-ok _ _ h in
      let (b, given_b, h) = and_then-ok _ _ h in
      let (k, key_a, h) = and_then-ok _ _ h in
      let (l, key_b, h) = and_then-ok _ _ h in
      let (e, given_e, h) = and_then-ok _ _ h in
      let (u, long, h) = and_then-ok _ _ h in
      let (n, valid, h) = and_then-ok _ _ h in
      subst CanStart (ok_lem h) (
        (
          a,
          ((required_iff "JWT_PRIVATE_KEY" a).0 given_a, (key_iff a "JWT_PRIVATE_KEY" k).0 key_a),
        ),
        (b, ((required_iff "JWT_PUBLIC_KEY" b).0 given_b, (key_iff b "JWT_PUBLIC_KEY" l).0 key_b)),
        (required_iff "GITHUB_TOKEN_ENCRYPTION_KEY" e).0 given_e,
        (long_iff e "GITHUB_TOKEN_ENCRYPTION_KEY").0 long,
        refl,
        (n, valid),
      )

  load_secrets_complete : (r : Secrets) → CanStart r → load_secrets env base64_decode ≡ ok r
  unfolding load_secrets ◌and_then◌
  load_secrets_complete r ((a, pem_a), (b, pem_b), given_e, long, same, (n, valid)) =
      rw
        (
          (required_iff "JWT_PRIVATE_KEY" a).1 pem_a.0,
          (required_iff "JWT_PUBLIC_KEY" b).1 pem_b.0,
          (key_iff a "JWT_PRIVATE_KEY" r.jwt_private_key).1 pem_a.1,
          (key_iff b "JWT_PUBLIC_KEY" r.jwt_public_key).1 pem_b.1,
          (required_iff "GITHUB_TOKEN_ENCRYPTION_KEY" r.github_token_encryption_key).1 given_e,
          (long_iff r.github_token_encryption_key "GITHUB_TOKEN_ENCRYPTION_KEY").1 long,
          same,
          valid,
        )
        refl

  -- The program gets its keys exactly when the variables of both JWT keys are there and decode to
  -- texts with the markers of a PEM key, the variable of the encryption key is there and has at least
  -- 32 UTF-16 units, and the lifetime, with its default, passes its check. A variable of white space
  -- counts as missing.
  pub load_secrets_iff : (r : Secrets) → (load_secrets env base64_decode ≡ ok r) ↔ CanStart r
  load_secrets_iff r = (load_secrets_sound r, load_secrets_complete r)
