-- ===== src/JwtAuth/Admission.antt =====
-- Which requests the first middleware lets through.
use af_auth.Base.{
  String, ◌≡◌, ◌↔◌, sym, subst, refl, true, Option, none, some, arith, eq_iff, ◌⊎◌, inl, inr,
  Bool-cases, ◌===◌, ◌+++◌, starts_with, substring_from, starts_with-split, starts_with-append,
  substring_from-append,
}
use af_auth.Base.Eff.{ok, World, Eff, Lookup-cases}
use af_auth.Env.{Env, Claims, User, verified}
use af_auth.Jwt.{outcome_of-cases, verify_jwt, verify_options}
use af_auth.Jwt.Refresh.{NotRevoked}
use af_auth.Revocation.{is_token_revoked}
use af_auth.Revocation.Revoked.{is_token_revoked_iff}
use af_auth.JwtAuth.{
  Principal, Outcome, next, principal_of, verify_jwt_middleware, check_revoked, refuse, look_up,
  admit_user, admit_claims, admit_result,
}

module _ {S : Type 0} (env : Env S) where
  -- The check of the `jti` claim either passes on or refuses, in a world with the same database, and
  -- it passes on just when no row refuses the token.
  pub check_revoked-cases :
      (jti : Option String) (refusal pass : Eff S Outcome) (w : World S)
      → ((w' : World S) × (w'.db ≡ w.db)
          × NotRevoked env jti w.db
          × (check_revoked env jti refusal pass w ≡ pass w'))
        ⊎ ((w' : World S) × (w'.db ≡ w.db)
            × (¬ NotRevoked env jti w.db)
            × (check_revoked env jti refusal pass w ≡ refusal w'))
  unfolding check_revoked
  check_revoked-cases none refusal pass w = inl (w, refl, tt, refl)
  check_revoked-cases (some j) refusal pass w = elim (Bool-cases (j === "")) [
    | inl e ↦ inl (w, refl, inl ((eq_iff j "").0 e), rw e)
    | inr e ↦
        let (fresh, total, same) = is_token_revoked_iff env j w in
        elim total [
          | inl yes_revoked ↦
              inr ((is_token_revoked env j w).1, same, ground (arith, eq_iff j ""), ground arith)
          | inr fine ↦ inl ((is_token_revoked env j w).1, same, inr (fresh.0 fine), ground arith)
        ]
  ]

  admit_claims_iff :
      (c : Claims) (w : World S) (p : Principal)
      → ((admit_claims env (some c) w).0 ≡ ok (next p)) ↔ (
          NotRevoked env c.jti w.db
          × ((user : User) × (env.find_user c.sub w.db ≡ ok (some user))
              × (user.is_whitelisted ≡ true))
          × (p ≡ principal_of c))
  unfolding admit_claims admit_user
  admit_claims_iff c w p = elim (check_revoked-cases c.jti (refuse env) (look_up env c) w) [
    | inl (w', same, current, e) ↦ elim (Lookup-cases (env.find_user c.sub w.db)) [
      | inl (user, f) ↦ (
        (λ h. (current, (user, f, ground arith), ground arith)),
        λ (_, (user', f', listed), is). ground arith,
      )
      | inr (inl f) ↦ ((λ h. absurd (ground arith)), λ (_, (user', f', listed), is). ground arith)
      | inr (inr (x, f)) ↦
          ((λ h. absurd (ground arith)), λ (_, (user', f', listed), is). ground arith)
    ]
    | inr (w', same, stale, e) ↦
        ((λ h. absurd (ground arith)), λ (current, _, is). absurd (stale current))
  ]

  -- What the middleware asks of a request before it calls `next` with the principal `p`.
  pub record Admits (header : Option String) (w : World S) (p : Principal) : Type 0 where
    pub token : String
    pub given : header ≡ some ("Bearer " +++ token)
    pub claims : Claims
    pub verifies :
        env.verify token env.config.jwt_public_key (verify_options env) (w.clock w.reads)
        ≡ verified claims
    pub current : NotRevoked env claims.jti w.db
    pub user : User
    pub found : env.find_user claims.sub w.db ≡ ok (some user)
    pub whitelisted : user.is_whitelisted ≡ true
    pub principal : p ≡ principal_of claims

  Admits-token :
      (token : String) (w : World S) (p : Principal)
      → (verify_jwt_middleware env (some ("Bearer " +++ token)) w).0 ≡ ok (next p)
      → Admits (some ("Bearer " +++ token)) w p
  unfolding verify_jwt_middleware verify_jwt admit_result
  Admits-token token w p h =
      elim (outcome_of-cases
        (env.verify token env.config.jwt_public_key (verify_options env) (w.clock w.reads))) [
          | inl (c, e) ↦
              let (current, (user, f, listed), is) =
                (admit_claims_iff c (verify_jwt env token w).1 p).0 (
                  ground (
                    arith,
                    starts_with-append "Bearer " token,
                    substring_from-append "Bearer " token,
                  )) in
              record {
                token = token;
                given = refl;
                claims = c;
                verifies = e;
                current = current;
                user = user;
                found = f;
                whitelisted = listed;
                principal = is;
              }
          | inr e ↦ absurd (
              ground
                (arith, starts_with-append "Bearer " token, substring_from-append "Bearer " token))
        ]

  token_admitted :
      (token : String) (w : World S) (p : Principal) (c : Claims)
      → env.verify token env.config.jwt_public_key (verify_options env) (w.clock w.reads)
        ≡ verified c
      → (admit_claims env (some c) (verify_jwt env token w).1).0 ≡ ok (next p)
      → (verify_jwt_middleware env (some ("Bearer " +++ token)) w).0 ≡ ok (next p)
  unfolding verify_jwt_middleware verify_jwt admit_result
  token_admitted token w p c e h =
      ground (arith, starts_with-append "Bearer " token, substring_from-append "Bearer " token)

  verify-db : (token : String) (w : World S) → (verify_jwt env token w).1.db ≡ w.db
  unfolding verify_jwt
  verify-db token w = refl

  Admits-admitted :
      (header : Option String) (w : World S) (p : Principal)
      → Admits header w p
      → (verify_jwt_middleware env header w).0 ≡ ok (next p)
  unfolding verify_jwt
  Admits-admitted header w p a = rw a.given (
      token_admitted a.token w p a.claims a.verifies (
        (admit_claims_iff a.claims (verify_jwt env a.token w).1 p).1
          (a.current, (a.user, a.found, a.whitelisted), a.principal)))

  admitted-Admits :
      (header : Option String) (w : World S) (p : Principal)
      → (verify_jwt_middleware env header w).0 ≡ ok (next p)
      → Admits header w p
  unfolding verify_jwt_middleware
  admitted-Admits none w p h = absurd (ground arith)
  admitted-Admits (some s) w p h = elim (Bool-cases (starts_with s "Bearer ")) [
    | inl e ↦
        let split : s ≡ "Bearer " +++ substring_from 7 s = starts_with-split s "Bearer " e in
        subst (λ x. Admits (some x) w p) (sym split)
          (Admits-token (substring_from 7 s) w p
            (subst (λ x. (verify_jwt_middleware env (some x) w).0 ≡ ok (next p)) split h))
    | inr e ↦ absurd (ground arith)
  ]

  -- The middleware calls `next` with a principal exactly when the header is "Bearer " and a token
  -- that verifies now, no row of the revoked tokens refuses the token's identifier, the database has
  -- the token's user and marks it as whitelisted, and the principal is made of the token's claims.
  pub verify_jwt_middleware_iff :
      (header : Option String) (w : World S) (p : Principal)
      → ((verify_jwt_middleware env header w).0 ≡ ok (next p)) ↔ Admits header w p
  verify_jwt_middleware_iff header w p = (admitted-Admits header w p, Admits-admitted header w p)
