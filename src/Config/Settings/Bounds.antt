-- ===== src/Config/Settings/Bounds.antt =====
-- What the settings satisfy when the program has started.
use af_auth.Base.{
  ℕ, ◌≤◌, String, ◌≡◌, ◌⊎◌, inl, inr, ap, subst, false, Option, arith, length_utf16, Bool-cases,
  str_eq→eq, ◌===◌, sym,
}
use af_auth.Base.Int.{ℤ, pos, negsuc}
use af_auth.Base.Eff.{Result, ok, Result-cases}
use af_auth.Config.Expiry.{
  validate_jwt_expires_in, parse_jwt_expires_in_to_seconds, max_safe_integer,
}
use af_auth.Config.Expiry.Laws.{validate_jwt_expires_in_sound}
use af_auth.Config.Secrets.{is_blank, get_optional_env}
use af_auth.Config.Secrets.Loading.{and_then-elim, ok_lem, load_secrets_iff, required_iff}
use af_auth.Config.Settings.{
  CookieSettings, Settings, in_range, checked_same_site, load_threshold, load_cookies,
}
use af_auth.Config.Settings.Load.{load_config}
use af_auth.Config.Settings.Parts.{load_config-Parts}

abbrev pub InRange : ℤ → ℕ → ℕ → Type 0
InRange x low high = (n : ℕ) × (x ≡ pos n) × (low ≤ n) × (n ≤ high)

abbrev pub IsSameSite : String → Type 0
IsSameSite v = (v ≡ "strict") ⊎ ((v ≡ "lax") ⊎ (v ≡ "none"))

in_range-InRange : (n t : ℤ) → in_range n ≡ ok t → InRange t 300 7200
in_range-InRange (pos n) t h = (n, ground arith, ground arith, ground arith)
in_range-InRange (negsuc n) t h = absurd (ground arith)

checked-IsSameSite : (value v : String) → checked_same_site value ≡ ok v → IsSameSite v
checked-IsSameSite value v h = elim (Bool-cases ("strict" === value)) [
  | inl e ↦ inl (sym (str_eq→eq "strict" v (ground arith)))
  | inr e ↦ elim (Bool-cases ("lax" === value)) [
    | inl f ↦ inr (inl (sym (str_eq→eq "lax" v (ground arith))))
    | inr f ↦ inr (inr (sym (str_eq→eq "none" v (ground arith))))
  ]
]

parsed :
    (s : String) {n : ℕ}
    → validate_jwt_expires_in s ≡ ok n
    → parse_jwt_expires_in_to_seconds s ≡ ok n
unfolding validate_jwt_expires_in
parsed s h = elim (Result-cases (parse_jwt_expires_in_to_seconds s)) [
  | inl (m, e) ↦ ground arith
  | inr (x, e) ↦ absurd (ground arith)
]

module _ (env : String → Option String) where
  threshold-InRange : (t : ℤ) → load_threshold env ≡ ok t → InRange t 300 7200
  unfolding load_threshold
  threshold-InRange t h = and_then-elim h λ n e h. in_range-InRange n t h

  cookies-IsSameSite : (c : CookieSettings) → load_cookies env ≡ ok c → IsSameSite c.same_site
  unfolding load_cookies
  cookies-IsSameSite c h = and_then-elim h λ v e h.
      let valid = checked-IsSameSite (get_optional_env env "COOKIE_SAME_SITE" "strict") v e in
      subst IsSameSite (ap (λ (x : CookieSettings). x.same_site) (ok_lem h)) valid

module _ (env : String → Option String) (base64_decode : String → String)
    (require_ssl : String → Result String) where
  -- When the program has started, the refresh threshold of GitHub tokens is between 300 and 7200
  -- seconds, the lifetime of a JWT is at least a minute and a safe integer of seconds, the encryption
  -- key has at least 32 UTF-16 units, the session secret is not blank, and the SameSite attribute is
  -- one of the three that cookies know.
  pub load_config-IsInRange :
      (c : Settings)
      → load_config env base64_decode require_ssl ≡ ok c
      → InRange c.github.token_refresh_threshold_seconds 300 7200
        × ((n : ℕ) × (parse_jwt_expires_in_to_seconds c.secrets.jwt_expires_in ≡ ok n)
            × (60 ≤ n)
            × (n ≤ max_safe_integer))
        × (32 ≤ length_utf16 c.secrets.github_token_encryption_key)
        × (is_blank c.session_secret ≡ false)
        × IsSameSite c.cookies.same_site
  load_config-IsInRange c h =
      let (
        port, secrets, url, threshold, redis, secret, age, tolerance, limits, cookies, rotation,
      ) =
        load_config-Parts env base64_decode require_ssl h in
      let (private, public, key, long, lifetime, (n, valid)) =
        (load_secrets_iff env base64_decode c.secrets).0 secrets in
      let (least, most, same) = validate_jwt_expires_in_sound c.secrets.jwt_expires_in valid in
      (
        threshold-InRange env c.github.token_refresh_threshold_seconds threshold,
        (n, parsed c.secrets.jwt_expires_in valid, least, most),
        long,
        ((required_iff env base64_decode "SESSION_SECRET" c.session_secret).0 secret).1,
        cookies-IsSameSite env c.cookies cookies,
      )
