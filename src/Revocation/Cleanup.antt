-- ===== src/Revocation/Cleanup.antt =====
-- The cleanup of the revoked tokens forgets no token that can still be used.
use af_auth.Base.{ℕ, ◌*◌, ◌-◌, ◌≤◌, String, ◌≡◌, ◌≢◌, refl, true, false, none, some, arith}
use af_auth.Base.Int.{day_ms}
use af_auth.Base.Eff.{ok, World}
use af_auth.Env.{Env, Claims, RevokedToken, verified}
use af_auth.Env.Laws.{ExpiryRespected, DeletesExpired}
use af_auth.Jwt.{verify_options}
use af_auth.Revocation.{cleanup_expired_revoked_tokens}

module _ {S : Type 0} (env : Env S) where
  -- A row that holds the expiry of its token survives a cleanup as long as the token verifies at
  -- some later time, if the days that are kept cover the clock tolerance.
  pub cleanup_keeps_usable :
      ExpiryRespected env
      → DeletesExpired env
      → (days : ℕ) (w : World S) (token jti : String) (row : RevokedToken) (c : Claims) (t exp : ℕ)
      → env.config.jwt_clock_tolerance * 1000 ≤ days * day_ms
      → env.find_revoked jti w.db ≡ ok (some row)
      → c.exp ≡ some exp
      → row.token_expires_at ≡ exp * 1000
      → w.clock w.reads ≤ t
      → env.verify token env.config.jwt_public_key (verify_options env) t ≡ verified c
      → env.find_revoked jti (cleanup_expired_revoked_tokens env days false w).1.db ≢ ok none
  unfolding cleanup_expired_revoked_tokens
  cleanup_keeps_usable expiry deletes days w token jti row c t exp room found claimed written later
        verifies =
      let before = expiry.expiry_respected token t exp c verifies claimed in
      deletes.keeps_row (w.clock w.reads - days * day_ms) jti row w.db found (omega arith)

  -- A dry run leaves the database alone, and answers with the number that a cleanup from the same
  -- state deletes.
  pub cleanup_dry_run :
      DeletesExpired env
      → (days n : ℕ) (w : World S) → (cleanup_expired_revoked_tokens env days false w).0 ≡ ok n
      → ((cleanup_expired_revoked_tokens env days true w).0 ≡ ok n)
        × ((cleanup_expired_revoked_tokens env days true w).1.db ≡ w.db)
  unfolding cleanup_expired_revoked_tokens
  cleanup_dry_run deletes days n w h =
      (deletes.counts_deleted (w.clock w.reads - days * day_ms) n w.db h, refl)
