-- ===== src/JwtAuth/Relation.antt =====
-- How the two middlewares compare, and that a revoked token is refused.
use text.Mathlib.TextLemmas.{append_cancel_left}
use af_auth.Base.{
  String, ◌∙◌, ◌≡◌, ◌≢◌, refl, ap, sym, subst, true, Option, none, some, arith, ◌⊎◌, inl, inr,
  Bool-cases, ◌+++◌, starts_with, substring_from,
}
use af_auth.Base.Eff.{Result, ok, World, try_catch, pure}
use af_auth.Env.{Env, Claims, verified}
use af_auth.Env.Laws.{CreateFound, ClaimsFixed}
use af_auth.Jwt.{outcome_of-cases, verify_jwt, verify_options}
use af_auth.Jwt.Refresh.{NotRevoked}
use af_auth.Revocation.{RevokeResult, revoke_token}
use af_auth.Revocation.Revoked.{revoke_token-Revokes}
use af_auth.JwtAuth.{
  Principal, Outcome, denied, next, principal_of, verify_jwt_middleware,
  verify_jwt_without_whitelist_check, refuse, look_up, admit_user, admit_claims, admit_result,
  lax_claims, lax_result, internal_error,
}
use af_auth.JwtAuth.Admission.{verify_jwt_middleware_iff, check_revoked-cases}

-- What the whitelist check may make of a request that the other middleware lets through.
abbrev pub Tightens : Outcome → Outcome → Type 0
Tightens (next p) o =
    (o ≡ next p)
    ⊎ ((o ≡ denied 404 "USER_NOT_FOUND" "User not found")
        ⊎ ((o ≡ denied 403 "WHITELIST_REVOKED" "Access has been revoked")
            ⊎ (o ≡ denied 500 "INTERNAL_ERROR" "Authentication error")))
Tightens (denied code e m) o = o ≡ denied code e m

abbrev pub TightensResult : Result Outcome → Result Outcome → Type 0
TightensResult (ok o) (ok o') = Tightens o o'
TightensResult _ _ = ⊥

module _ {S : Type 0} (env : Env S) where
  -- A token that was revoked successfully is not let through by any later request that meets the
  -- same revoked tokens, at whatever time it comes.
  pub revoked-refused :
      CreateFound env
      → ClaimsFixed env
      → (token : String) (by reason : Option String) (w w' w'' : World S) (res : RevokeResult)
        (p : Principal)
      → revoke_token env token by reason w ≡ (ok res, w')
      → res.success ≡ true
      → ((jti : String) → env.find_revoked jti w''.db ≡ env.find_revoked jti w'.db)
      → (verify_jwt_middleware env (some ("Bearer " +++ token)) w'').0 ≢ ok (next p)
  revoked-refused found fixed token by reason w w' w'' res p h s kept admitted =
      let a = (verify_jwt_middleware_iff env (some ("Bearer " +++ token)) w'' p).0 admitted in
      let r = revoke_token-Revokes env found token by reason w w' res h s in
      let same_token : a.token ≡ token =
        sym (append_cancel_left "Bearer " token a.token (cc a.given)) in
      let same_claims : a.claims ≡ r.claims =
        fixed.claims_fixed token (w''.clock w''.reads) (w.clock w.reads) a.claims r.claims
          (subst
            (λ x.
              env.verify x env.config.jwt_public_key (verify_options env) (w''.clock w''.reads)
              ≡ verified a.claims)
            same_token a.verifies)
          r.verifies in
      let current : NotRevoked env (some r.jti) w''.db =
        subst (λ x. NotRevoked env x w''.db) (ap (λ (c : Claims). c.jti) same_claims ∙ r.claimed)
          a.current in
      elim current [
        | inl empty ↦ r.nonempty empty
        | inr fresh ↦ r.listed (sym (kept r.jti) ∙ fresh)
      ]

  tightens_claims :
      (c : Claims) (w v : World S)
      → v.db ≡ w.db
      → TightensResult
          (lax_claims env (some c) w).0
          (try_catch (admit_claims env (some c)) (internal_error env) v).0
  unfolding lax_claims admit_claims admit_user
  tightens_claims c w v same =
      elim (check_revoked-cases env c.jti
        (pure (denied 401 "TOKEN_REVOKED" "This token has been revoked"))
        (pure (next (principal_of c))) w) [
          | inl (w', d, current, e) ↦
              elim (check_revoked-cases env c.jti (refuse env) (look_up env c) v) [
                | inl (v', d', current', e') ↦ ground arith
                | inr (v', d', stale, e') ↦
                    absurd (stale (subst (NotRevoked env c.jti) (sym same) current))
              ]
          | inr (w', d, stale, e) ↦
              elim (check_revoked-cases env c.jti (refuse env) (look_up env c) v) [
                | inl (v', d', current', e') ↦
                    absurd (stale (subst (NotRevoked env c.jti) same current'))
                | inr (v', d', stale', e') ↦ ground arith
              ]
        ]

  -- Both middlewares always answer. Where the one without the whitelist check refuses, the other
  -- refuses with the same status, code and message; where it lets a principal through, the other
  -- lets the same one through or refuses for want of a whitelisted user or on a database error.
  pub middlewares-TightensResult :
      (header : Option String) (w : World S)
      → TightensResult
          (verify_jwt_without_whitelist_check env header w).0
          (verify_jwt_middleware env header w).0
  unfolding verify_jwt_without_whitelist_check verify_jwt_middleware lax_result admit_result
      verify_jwt
  middlewares-TightensResult none w = refl
  middlewares-TightensResult (some s) w = elim (Bool-cases (starts_with s "Bearer ")) [
    | inr e ↦ ground arith
    | inl b ↦
        elim (outcome_of-cases (
          env.verify (substring_from 7 s) env.config.jwt_public_key (verify_options env)
            (w.clock w.reads))) [
              | inl (c, e) ↦ ground (
                arith,
                tightens_claims c (verify_jwt env (substring_from 7 s) w).1
                    (verify_jwt env (substring_from 7 s) w).1 refl,
              )
              | inr e ↦ ground arith
            ]
  ]
