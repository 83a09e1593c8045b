-- ===== src/Revocation/Revoked.antt =====
-- What a revocation leaves behind, and what the check of a token reads.
use af_auth.Base.{
  ℕ, zero, suc, or_null, String, ◌≡◌, ◌≢◌, ◌↔◌, refl, true, false, Option, none, some, arith,
  eq_iff, ◌⊎◌, inl, inr, Bool-cases, ◌===◌,
}
use af_auth.Base.Eff.{ok, World, Result-cases}
use af_auth.Env.{Env, Claims, RevokedToken, verified}
use af_auth.Env.Laws.{CreateFound}
use af_auth.Jwt.{outcome_of-cases, verify_jwt, verify_options}
use af_auth.Revocation.{
  RevokeResult, revoke_token, revoke_claims, revoke_jti, add_row, is_token_revoked, expiry_of,
  issue_time_of, revoke_failure,
}

module _ {S : Type 0} (env : Env S) where
  -- A token counts as not revoked exactly when the table was read and has no row for it; the check
  -- itself never throws and does not change the database.
  pub is_token_revoked_iff :
      (jti : String) (w : World S)
      → (((is_token_revoked env jti w).0 ≡ ok false) ↔ (env.find_revoked jti w.db ≡ ok none))
        × (((is_token_revoked env jti w).0 ≡ ok true) ⊎ ((is_token_revoked env jti w).0 ≡ ok false))
        × ((is_token_revoked env jti w).1.db ≡ w.db)
  unfolding is_token_revoked
  is_token_revoked_iff jti w = ground arith

  pub listed-is_token_revoked :
      (jti : String) (w : World S)
      → env.find_revoked jti w.db ≢ ok none
      → (is_token_revoked env jti w).0 ≡ ok true
  unfolding is_token_revoked
  listed-is_token_revoked jti w h = ground arith

  -- The two times of a row are computed without a throw, and without touching the database.
  expiry_of_lem :
      (exp : Option ℕ) (w : World S)
      → (t : ℕ) × (w' : World S) × (expiry_of env exp w ≡ (ok t, w')) × (w'.db ≡ w.db)
  unfolding expiry_of
  expiry_of_lem none w = (_, _, refl, refl)
  expiry_of_lem (some zero) w = (_, _, refl, refl)
  expiry_of_lem (some (suc n)) w = (_, _, refl, refl)

  issue_time_of_lem :
      (iat : Option ℕ) (w : World S)
      → (t : ℕ) × (w' : World S) × (issue_time_of env iat w ≡ (ok t, w')) × (w'.db ≡ w.db)
  unfolding issue_time_of
  issue_time_of_lem none w = (_, _, refl, refl)
  issue_time_of_lem (some zero) w = (_, _, refl, refl)
  issue_time_of_lem (some (suc n)) w = (_, _, refl, refl)

  add_row_found :
      CreateFound env
      → (c : Claims) (jti : String) (by reason : Option String) (found : Option RevokedToken)
        (w w' : World S) (res : RevokeResult)
      → env.find_revoked jti w.db ≡ ok found
      → add_row env c jti by reason found w ≡ (ok res, w')
      → (res.success ≡ true) × (res.jti ≡ some jti) × (env.find_revoked jti w'.db ≢ ok none)
  unfolding add_row
  add_row_found laws c jti by reason (some row) w w' res f h = ground arith
  add_row_found laws c jti by reason none w w' res f h =
      let (t, w1, e, d) = expiry_of_lem c.exp w in
      let (t', w2, e', d') = issue_time_of_lem c.iat w1 in
      let row : RevokedToken = record {
        jti = jti;
        user_id = c.sub;
        token_issued_at = t';
        token_expires_at = t;
        revoked_by = or_null by;
        reason = or_null reason;
      } in
      ground (arith, e, e', laws.create_found row w2.db)

  -- What a successful revocation has established.
  pub record Revokes (token : String) (w : World S) (res : RevokeResult) (w' : World S)
      : Type 0 where
    pub claims : Claims
    pub verifies :
        env.verify token env.config.jwt_public_key (verify_options env) (w.clock w.reads)
        ≡ verified claims
    pub jti : String
    pub claimed : claims.jti ≡ some jti
    pub nonempty : jti ≢ ""
    pub reported : res.jti ≡ some jti
    pub listed : env.find_revoked jti w'.db ≢ ok none

  revoke_jti_lem :
      CreateFound env
      → (c : Claims) (jti : Option String) (by reason : Option String) (w w' : World S)
        (res : RevokeResult)
      → revoke_jti env c jti by reason w ≡ (ok res, w')
      → res.success ≡ true
      → (j : String) × (jti ≡ some j)
        × (j ≢ "")
        × (res.jti ≡ some j)
        × (env.find_revoked j w'.db ≢ ok none)
  unfolding revoke_jti
  revoke_jti_lem laws c none by reason w w' res h s = absurd (ground arith)
  revoke_jti_lem laws c (some j) by reason w w' res h s = elim (Bool-cases (j === "")) [
    | inl e ↦ absurd (ground arith)
    | inr e ↦ elim (Result-cases (env.find_revoked j w.db)) [
      | inl (found, f) ↦
          let (_, same, listed) =
            add_row_found laws c j by reason found w w' res f (rw (e, f) at h) in
          (j, refl, (λ p. ground (arith, eq_iff j "")), same, listed)
      | inr (x, f) ↦ absurd (ground arith)
    ]
  ]

  pub revoke_token-Revokes :
      CreateFound env
      → (token : String) (by reason : Option String) (w w' : World S) (res : RevokeResult)
      → revoke_token env token by reason w ≡ (ok res, w')
      → res.success ≡ true
      → Revokes token w res w'
  unfolding revoke_token revoke_claims revoke_failure verify_jwt
  revoke_token-Revokes laws token by reason w w' res h s =
      elim (outcome_of-cases
        (env.verify token env.config.jwt_public_key (verify_options env) (w.clock w.reads))) [
          | inl (c, e) ↦
              let (j, claimed, nonempty, reported, listed) =
                revoke_jti_lem laws c c.jti by reason (verify_jwt env token w).1 w' res
                  (ground arith) s in
              record {
                claims = c;
                verifies = e;
                jti = j;
                claimed = claimed;
                nonempty = nonempty;
                reported = reported;
                listed = listed;
              }
          | inr e ↦ absurd (ground arith)
        ]

  -- After a call of `revokeToken` that reports success, the check of the token's identifier answers
  -- that it is revoked, whether the row is new or was there before, and also when the table cannot
  -- be read. (With Prisma's `create` as `CreateFound` says.)
  pub is_token_revoked-revoke_token :
      CreateFound env
      → (token : String) (by reason : Option String) (w w' : World S) (res : RevokeResult)
      → revoke_token env token by reason w ≡ (ok res, w')
      → res.success ≡ true
      → (jti : String) × (res.jti ≡ some jti) × ((is_token_revoked env jti w').0 ≡ ok true)
  is_token_revoked-revoke_token laws token by reason w w' res h s =
      let r = revoke_token-Revokes laws token by reason w w' res h s in
      (r.jti, r.reported, listed-is_token_revoked r.jti w' r.listed)
