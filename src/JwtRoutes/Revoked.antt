-- ===== src/JwtRoutes/Revoked.antt =====
-- A token that was revoked over the endpoint is not refreshed over the other.
use af_auth.Base.{
  String, ◌≡◌, ◌≢◌, ◌∙◌, ap, sym, subst, true, Bool-cases, Option, some, arith, inl, inr,
}
use af_auth.Base.Eff.{ok, World, Result-cases}
use af_auth.Env.{Env, Claims}
use af_auth.Env.Laws.{CreateFound, ClaimsFixed}
use af_auth.Jwt.{refresh_jwt}
use af_auth.Jwt.Refresh.{NotRevoked, IsRefreshable, refresh_jwt_sound}
use af_auth.Revocation.{RevokeResult, revoke_token}
use af_auth.Revocation.Revoked.{revoke_token-Revokes, Revokes}
use af_auth.JwtRoutes.{IssuedToken, issued, revocation, refresh_route, revoke_route, respond_issued}

module _ {S : Type 0} (env : Env S) where
  revoke_route-success :
      (token : String) (reason by jti : Option String) (w w' : World S)
      → revoke_route env token reason by w ≡ (ok (revocation jti), w')
      → (res : RevokeResult) × (revoke_token env token by reason w ≡ (ok res, w'))
        × (res.success ≡ true)
        × (res.jti ≡ jti)
  unfolding revoke_route
  revoke_route-success token reason by jti w w' h =
      elim (Result-cases (revoke_token env token by reason w).0) [
        | inl (res, e) ↦ elim (Bool-cases res.success) [
          | inl s ↦ (res, ground arith, s, ground arith)
          | inr s ↦ absurd (ground arith)
        ]
        | inr (x, e) ↦ absurd (ground arith)
      ]

  refresh_route-IsRefreshable :
      (token : String) (x : IssuedToken) (w : World S)
      → (refresh_route env token w).0 ≡ ok (issued x)
      → IsRefreshable env token w
  unfolding refresh_route respond_issued
  refresh_route-IsRefreshable token x w h = elim (Result-cases (refresh_jwt env token w).0) [
    | inl (t, e) ↦ refresh_jwt_sound env token w e
    | inr (e, f) ↦ absurd (ground arith)
  ]

  -- Two verifications of one token have the same claims, so what is listed for one refuses the other.
  Revokes-not_refreshable :
      ClaimsFixed env
      → (token : String) (res : RevokeResult) (w w' w'' : World S) → Revokes env token w res w'
      → ((jti : String) → env.find_revoked jti w''.db ≡ env.find_revoked jti w'.db)
      → IsRefreshable env token w''
      → ⊥
  Revokes-not_refreshable fixed token res w w' w'' r kept a =
      let same_claims : a.claims ≡ r.claims =
        fixed.claims_fixed token (w''.clock w''.reads) (w.clock w.reads) a.claims r.claims
          a.verifies r.verifies in
      let current : NotRevoked env (some r.jti) w''.db =
        subst (λ x. NotRevoked env x w''.db) (ap (λ (c : Claims). c.jti) same_claims ∙ r.claimed)
          a.current in
      elim current [
        | inl empty ↦ r.nonempty empty
        | inr fresh ↦ r.listed (sym (kept r.jti) ∙ fresh)
      ]

  -- Once the endpoint has answered that a token is revoked, no later request that meets the same
  -- revoked tokens gets a new token for it, at whatever time it comes.
  pub revoke_route-refresh_route :
      CreateFound env
      → ClaimsFixed env
      → (token : String) (reason by jti : Option String) (w w' w'' : World S) (x : IssuedToken)
      → revoke_route env token reason by w ≡ (ok (revocation jti), w')
      → ((j : String) → env.find_revoked j w''.db ≡ env.find_revoked j w'.db)
      → (refresh_route env token w'').0 ≢ ok (issued x)
  revoke_route-refresh_route found fixed token reason by jti w w' w'' x h kept again =
      let (res, e, success, _) = revoke_route-success token reason by jti w w' h in
      Revokes-not_refreshable fixed token res w w' w''
        (revoke_token-Revokes env found token by reason w w' res e success) kept
        (refresh_route-IsRefreshable token x w'' again)
