-- ===== src/Tests/Tokens.antt =====
-- The theorems on tokens at a small state: a token that is signed, used, revoked and cleaned up.
use af_auth.Base.{
  starts_with, split, parse_int, show, ℕ, ◌+◌, ◌≡◌, ◌≢◌, ◌↔◌, refl, true, false, none, some, [],
  ◌∷◌, arith, ◌⊎◌,
}
use af_auth.Base.Eff.{ok, World, Eff, pure}
use af_auth.Config.Expiry.{match_expiry, parse_jwt_expires_in_to_seconds, validate_jwt_expires_in}
use af_auth.Env.{RevokedToken}
use af_auth.Jwt.{generate_jwt, refresh_jwt, verify_jwt, sign_jwt}
use af_auth.Jwt.Refresh.{refresh_jwt_sound, IsRefreshable}
use af_auth.Revocation.{revoked_ok, revoke_token, is_token_revoked}
use af_auth.Revocation.Revoked.{is_token_revoked_iff}
use af_auth.Scripts.CleanupTokens
use af_auth.Scripts.CleanupTokens.{retention_days}
use af_auth.Scripts.CleanupTokens.Kept.{OnlyConnects, cleanup_script-keeps}
use af_auth.Base.Int.{pos}
use af_auth.JwtAuth.{Principal, next, verify_jwt_middleware, verify_jwt_without_whitelist_check}
use af_auth.JwtAuth.Admission.{verify_jwt_middleware_iff, Admits}
use af_auth.JwtAuth.Relation.{revoked-refused, middlewares-TightensResult, TightensResult}
use af_auth.JwtAuth.Issued.{issued-admitted}
use af_auth.JwtRoutes.{IssuedToken, issued, revocation, refresh_route, revoke_route}
use af_auth.JwtRoutes.Revoked.{revoke_route-refresh_route}
use af_auth.Tests.Db.{Db, env, world, db, alice, alice_claims}
use af_auth.Tests.Laws.{creates, fixes_claims, respects_expiry, deletes, signs, parsed_hour}

abbrev at_time : ℕ → Db → World Db
at_time t s = record world { db = s; clock = λ n. t + n }

abbrev principal : Principal
principal = record { sub = "alice"; github_id = "7"; jti = some "r0" }

hour_accepted : validate_jwt_expires_in "1h" ≡ ok 3600
unfolding validate_jwt_expires_in parse_jwt_expires_in_to_seconds match_expiry
hour_accepted = refl

generated : (generate_jwt env "alice" world).0 ≡ ok "signed"
unfolding generate_jwt sign_jwt show
generated = refl

refreshed : (refresh_jwt env "signed" world).0 ≡ ok "signed"
unfolding refresh_jwt verify_jwt generate_jwt sign_jwt show
refreshed = refl

refresh_jwt_sound_example : IsRefreshable env "signed" world
refresh_jwt_sound_example = refresh_jwt_sound env "signed" world refreshed

is_token_revoked_iff_example :
    (((is_token_revoked env "r0" world).0 ≡ ok false) ↔ (env.find_revoked "r0" db ≡ ok none))
    × (((is_token_revoked env "r0" world).0 ≡ ok true)
        ⊎ ((is_token_revoked env "r0" world).0 ≡ ok false))
    × ((is_token_revoked env "r0" world).1.db ≡ db)
is_token_revoked_iff_example = is_token_revoked_iff env "r0" world

abbrev row : RevokedToken
row = record {
  jti = "r0";
  user_id = "alice";
  token_issued_at = 5000;
  token_expires_at = 3605000;
  revoked_by = none;
  reason = some "lost";
}

abbrev after : World Db
after = (revoke_token env "signed" none (some "lost") world).1

revokes : revoke_token env "signed" none (some "lost") world ≡ (ok (revoked_ok "r0"), after)
unfolding revoke_token verify_jwt
revokes = refl

abbrev one_revoked : World Db
one_revoked = record world { db = record db { revoked = row ∷ [] } }

abbrev nothing : Eff Db (Unit {0})
nothing = pure tt

connects : OnlyConnects nothing
connects = record { same_db = λ w. refl; same_time = λ w. refl }

-- The script really keeps a day: it reads the argument.
reads_day : retention_days ("--retention=1" ∷ []) ≡ some (pos 1)
unfolding retention_days starts_with split parse_int
reads_day = refl

cleanup_script-keeps_example :
    env.find_revoked "r0"
      (CleanupTokens.main env nothing nothing ("--retention=1" ∷ []) one_revoked).1.db
    ≢ ok none
cleanup_script-keeps_example =
    cleanup_script-keeps env nothing nothing respects_expiry deletes connects connects
      ("--retention=1" ∷ []) one_revoked "signed" "r0" row alice_claims 60000 3605 (omega arith)
      refl refl refl (omega arith) refl

verify_jwt_middleware_iff_example :
    ((verify_jwt_middleware env (some "Bearer signed") world).0 ≡ ok (next principal))
    ↔ Admits env (some "Bearer signed") world principal
verify_jwt_middleware_iff_example =
    verify_jwt_middleware_iff env (some "Bearer signed") world principal

revoked-refused_example :
    (verify_jwt_middleware env (some "Bearer signed") (at_time 60000 after.db)).0
    ≢ ok (next principal)
revoked-refused_example =
    revoked-refused env creates fixes_claims "signed" none (some "lost") world after
      (at_time 60000 after.db) (revoked_ok "r0") principal revokes refl (λ jti. refl)

middlewares-TightensResult_example :
    TightensResult
      (verify_jwt_without_whitelist_check env (some "Bearer signed") world).0
      (verify_jwt_middleware env (some "Bearer signed") world).0
middlewares-TightensResult_example = middlewares-TightensResult env (some "Bearer signed") world

issued-admitted_example :
    (verify_jwt_middleware env (some "Bearer signed") (at_time 60000 db)).0 ≡ ok (next principal)
unfolding show
issued-admitted_example =
    issued-admitted env signs "signed" alice alice world (at_time 60000 db) 3600 refl generated
      parsed_hour (omega arith) (omega arith) refl refl refl

abbrev after_route : World Db
after_route = (revoke_route env "signed" (some "lost") none world).1

route_revokes :
    revoke_route env "signed" (some "lost") none world ≡ (ok (revocation (some "r0")), after_route)
unfolding revoke_route revoke_token verify_jwt
route_revokes = refl

abbrev some_token : IssuedToken
some_token = record { token = "signed"; expires_in = "1h"; expires_at = 3660000 }

revoke_route-refresh_route_example :
    (refresh_route env "signed" (at_time 60000 after_route.db)).0 ≢ ok (issued some_token)
revoke_route-refresh_route_example =
    revoke_route-refresh_route env creates fixes_claims "signed" (some "lost") none (some "r0")
      world after_route (at_time 60000 after_route.db) some_token route_revokes (λ jti. refl)
