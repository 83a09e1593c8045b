-- ===== src/JwtAuth/Issued.antt =====
-- A user who is issued a token can use it.
use af_auth.Base.{ℕ, ◌+◌, ◌/◌, ◌≤◌, ◌<◌, String, ◌≡◌, refl, true, none, some, show, inr, ◌+++◌}
use af_auth.Base.Eff.{ok, World}
use af_auth.Config.Expiry.{parse_jwt_expires_in_to_seconds}
use af_auth.Env.{Env, User}
use af_auth.Env.Laws.{SignVerified, claims_of}
use af_auth.Jwt.{generate_jwt}
use af_auth.Jwt.Roundtrip.{generate_jwt-verified, payload_of}
use af_auth.JwtAuth.{next, verify_jwt_middleware}
use af_auth.JwtAuth.Admission.{verify_jwt_middleware_iff}

module _ {S : Type 0} (env : Env S) where
  -- A token that was issued for a user is let through as long as it lasts, in any later state of the
  -- database in which the user's row is there and whitelisted and the token is not revoked; the
  -- principal carries the user's identifiers and the token's.
  pub issued-admitted :
      SignVerified env
      → (token : String) (user now_user : User) (w w' : World S) (seconds : ℕ)
      → env.find_user user.id w.db ≡ ok (some user)
      → (generate_jwt env user.id w).0 ≡ ok token
      → parse_jwt_expires_in_to_seconds env.config.jwt_expires_in ≡ ok seconds
      → w.clock w.reads ≤ w'.clock w'.reads
      → w'.clock w'.reads / 1000 < w.clock w.reads / 1000 + seconds + env.config.jwt_clock_tolerance
      → env.find_user user.id w'.db ≡ ok (some now_user)
      → now_user.is_whitelisted ≡ true
      → env.find_revoked (w.random w.drawn) w'.db ≡ ok none
      → (verify_jwt_middleware env (some ("Bearer " +++ token)) w').0
        ≡ ok (
            next (record {
              sub = user.id;
              github_id = show user.github_user_id;
              jti = some (w.random w.drawn);
            }))
  issued-admitted laws token user now_user w w' seconds found made parsed later before still listed
        fresh =
      let (user', found', verifies) =
        generate_jwt-verified env laws user.id token w (w'.clock w'.reads) seconds made parsed later
          before in
      let same : user' ≡ user = cc (found, found') in
      (verify_jwt_middleware_iff env (some ("Bearer " +++ token)) w' _).1 (record {
        token = token;
        given = refl;
        claims =
            claims_of (payload_of env user w) (w.clock w.reads / 1000)
              (w.clock w.reads / 1000 + seconds);
        verifies = rw same at verifies;
        current = inr fresh;
        user = now_user;
        found = still;
        whitelisted = listed;
        principal = refl;
      })
