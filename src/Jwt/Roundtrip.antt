-- ===== src/Jwt/Roundtrip.antt =====
-- What is issued is what verifies.
use af_auth.Base.{ℕ, ◌+◌, ◌/◌, ◌≤◌, ◌<◌, String, ◌≡◌, refl, some, show, arith, inl, inr}
use af_auth.Base.Eff.{ok, World, Lookup-cases}
use af_auth.Config.Expiry.{parse_jwt_expires_in_to_seconds}
use af_auth.Env.{Env, User, Payload, verified}
use af_auth.Env.Laws.{SignVerified, claims_of}
use af_auth.Jwt.{generate_jwt, sign_jwt, verify_options}

module _ {S : Type 0} (env : Env S) where
  -- The payload that is signed for a user, with the identifier that the call draws.
  abbrev pub payload_of : User → World S → Payload
  payload_of user w = record {
    sub = user.id;
    github_id = show user.github_user_id;
    jti = w.random w.drawn;
    iss = env.config.jwt_issuer;
    aud = env.config.jwt_audience;
  }

  -- A token that `generateJWT` returns was signed for the user that the database has now, and until
  -- its lifetime and the clock tolerance have passed it verifies with that user's claims.
  pub generate_jwt-verified :
      SignVerified env
      → (user_id token : String) (w : World S) (t seconds : ℕ)
      → (generate_jwt env user_id w).0 ≡ ok token
      → parse_jwt_expires_in_to_seconds env.config.jwt_expires_in ≡ ok seconds
      → w.clock w.reads ≤ t
      → t / 1000 < w.clock w.reads / 1000 + seconds + env.config.jwt_clock_tolerance
      → (user : User) × (env.find_user user_id w.db ≡ ok (some user))
        × (env.verify token env.config.jwt_public_key (verify_options env) t
            ≡ verified (
                claims_of
                  (payload_of user w)
                  (w.clock w.reads / 1000)
                  (w.clock w.reads / 1000 + seconds)))
  unfolding generate_jwt sign_jwt
  generate_jwt-verified laws user_id token w t seconds h parsed later before =
      elim (Lookup-cases (env.find_user user_id w.db)) [
        | inl (user, f) ↦ (
          user,
          f,
          laws.sign_verified (payload_of user w) (w.clock w.reads) t seconds token (ground arith)
              parsed refl refl later before,
        )
        | inr (inl f) ↦ absurd (ground arith)
        | inr (inr (x, f)) ↦ absurd (ground arith)
      ]
