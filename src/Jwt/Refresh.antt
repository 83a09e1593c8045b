-- ===== src/Jwt/Refresh.antt =====
-- When a token is refreshed, and what refuses it.
use af_auth.Base.{
  String, ◌≡◌, ◌⊎◌, inl, inr, true, Option, none, some, arith, eq_iff, refl, Bool-cases, ◌===◌,
}
use af_auth.Base.Eff.{ok, err, error, Thrown, World, Lookup-cases}
use af_auth.Env.{Env, User, Claims, verified}
use af_auth.Jwt.{
  outcome_of-cases, refresh_jwt, verify_jwt, refresh_claims, refresh_result, refresh_user,
  refuse_revoked, verify_options,
}

module _ {S : Type 0} (env : Env S) where
  -- No row of the revoked tokens refuses a token with this `jti` claim.
  abbrev pub NotRevoked : Option String → S → Type 0
  NotRevoked none s = Unit
  NotRevoked (some jti) s = (jti ≡ "") ⊎ (env.find_revoked jti s ≡ ok none)

  -- What must hold of a token for it to be refreshed.
  pub record IsRefreshable (token : String) (w : World S) : Type 0 where
    pub claims : Claims
    pub verifies :
        env.verify token env.config.jwt_public_key (verify_options env) (w.clock w.reads)
        ≡ verified claims
    pub current : NotRevoked claims.jti w.db
    pub user : User
    pub found : env.find_user claims.sub w.db ≡ ok (some user)
    pub whitelisted : user.is_whitelisted ≡ true

  -- The check of the revoked tokens passes and changes nothing, or it throws.
  pub refuse_revoked-cases :
      (jti : Option String) (w : World S)
      → ((refuse_revoked env jti w ≡ (ok tt, w)) × NotRevoked jti w.db)
        ⊎ ((e : Thrown) × (refuse_revoked env jti w ≡ (err e, w)))
  unfolding refuse_revoked
  refuse_revoked-cases none w = inl (refl, tt)
  refuse_revoked-cases (some j) w = elim (Bool-cases (j === "")) [
    | inl e ↦ inl (rw e, inl ((eq_iff j "").0 e))
    | inr e ↦ elim (Lookup-cases (env.find_revoked j w.db)) [
      | inl (row, f) ↦ inr (error "TOKEN_REVOKED", rw (e, f))
      | inr (inl f) ↦ inl (rw (e, f), inr f)
      | inr (inr (x, f)) ↦ inr (x, rw (e, f))
    ]
  ]

  after_claims :
      (claims : Claims) (w : World S) {t : String}
      → (refresh_claims env (some claims) w).0 ≡ ok t
      → NotRevoked claims.jti w.db
        × ((user : User) × (env.find_user claims.sub w.db ≡ ok (some user))
            × (user.is_whitelisted ≡ true))
  unfolding refresh_claims refresh_user
  after_claims claims w h = elim (refuse_revoked-cases claims.jti w) [
    | inl (e, current) ↦ elim (Lookup-cases (env.find_user claims.sub w.db)) [
      | inl (user, f) ↦ (current, (user, f, ground arith))
      | inr (inl f) ↦ absurd (ground arith)
      | inr (inr (x, f)) ↦ absurd (ground arith)
    ]
    | inr (x, e) ↦ absurd (ground arith)
  ]

  -- A token is refreshed only if it verifies at the time of the call, is not listed as revoked, and
  -- belongs to a user that the database has and marks as whitelisted.
  pub refresh_jwt_sound :
      (token : String) (w : World S) {t : String}
      → (refresh_jwt env token w).0 ≡ ok t
      → IsRefreshable token w
  unfolding refresh_jwt verify_jwt refresh_result
  refresh_jwt_sound token w {t} h =
      elim (outcome_of-cases
        (env.verify token env.config.jwt_public_key (verify_options env) (w.clock w.reads))) [
          | inl (c, e) ↦
              let (current, (user, found, listed)) = after_claims c _ (rw e at h) in
              record {
                claims = c;
                verifies = e;
                current = current;
                user = user;
                found = found;
                whitelisted = listed;
              }
          | inr other ↦ absurd (ground arith)
        ]
