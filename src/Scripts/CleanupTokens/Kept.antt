-- ===== src/Scripts/CleanupTokens/Kept.antt =====
-- The script forgets no token that can still be used.
use af_auth.Base.{
  ℕ, ◌*◌, ◌≤◌, String, ◌≡◌, ◌≢◌, refl, sym, subst, Bool, true, false, Option, none, some, List,
  arith, inl, inr, any, ◌===◌, ◌||◌, if◌then◌else◌,
}
use af_auth.Base.Int.{ℤ, pos, negsuc, day_ms}
use af_auth.Base.Eff.{
  Result, ok, err, Eff, World, Result-cases, Thrown, message, pure, try_catch, ◌>>=◌,
}
use af_auth.Env.{Env, Claims, RevokedToken, verified}
use af_auth.Env.Laws.{ExpiryRespected, DeletesExpired}
use af_auth.Jwt.{verify_options}
use af_auth.Revocation.{cleanup_expired_revoked_tokens}
use af_auth.Revocation.Cleanup.{cleanup_keeps_usable}
use af_auth.Scripts.CleanupTokens.{
  Report, usage, failed, deleted, would_delete, retention_days, valid_days, clean_up, run_days,
  main,
}

-- The days are at least 1.
valid_lem : (o : Option ℤ) (n : ℕ) → valid_days o ≡ some n → 1 ≤ n
valid_lem none n h = absurd (ground arith)
valid_lem (some (pos ℕ.zero)) n h = absurd (ground arith)
valid_lem (some (pos (ℕ.suc m))) n h = ground arith
valid_lem (some (negsuc m)) n h = absurd (ground arith)

module _ {S : Type 0} where
  -- Connecting and disconnecting leave the rows and the clock alone.
  pub record OnlyConnects (m : Eff S (Unit {0})) : Type 0 where
    pub same_db : (w : World S) → (m w).1.db ≡ w.db
    pub same_time : (w : World S) → (m w).1.clock (m w).1.reads ≡ w.clock w.reads

  ended_lem :
      {A B : Type 0} (Q : World S → Type 0) (f : A → Eff S B) (x : Result A × World S)
      → Q x.1
      → ((a : A) → Q (f a x.1).1)
      → Q (elim x.0 as (λ r. Result B × World S) [ ok a ↦ f a x.1 | err e ↦ (err e, x.1) ]).1
  ended_lem Q f (ok a, w) h k = k a
  ended_lem Q f (err e, w) h k = h

  bind_lem :
      {A B : Type 0} (Q : World S → Type 0) (m : Eff S A) (f : A → Eff S B) (w : World S)
      → Q (m w).1
      → ((a : A) → Q (f a (m w).1).1)
      → Q ((m >>= f) w).1
  bind_lem Q m f w h k = ended_lem Q f (m w) h k

  caught_lem :
      {A B : Type 0} (m : Eff S A) (f : A → B) (g : Thrown → B) (w : World S)
      → ((try_catch (m >>= (λ a. pure (f a))) (λ e. pure (g e))) w).1 ≡ (m w).1
  caught_lem m f g w = elim (Result-cases (m w).0) [
    | inl (a, e) ↦ ground arith
    | inr (x, e) ↦ ground arith
  ]

module _ {S : Type 0} (env : Env S) (connect disconnect : Eff S (Unit {0})) where
  clean_up_keeps :
      (P : S → Type 0)
      → OnlyConnects disconnect
      → (w : World S) (dry_run : Bool) (days : ℕ) → P (connect w).1.db
      → P (cleanup_expired_revoked_tokens env days dry_run (connect w).1).1.db
      → P (clean_up env connect disconnect days dry_run w).1.db
  unfolding clean_up
  clean_up_keeps P d w dry_run days here there =
      let clean = cleanup_expired_revoked_tokens env days dry_run in
      let v = (clean (connect w).1).1 in
      let left : P (disconnect v).1.db = subst P (sym (d.same_db v)) there in
      let end : ℕ → Unit {0} → Eff S Report =
        λ n u. pure (if dry_run then would_delete n days else deleted n days) in
      let last : ℕ → Eff S Report = λ n. disconnect >>= end n in
      bind_lem {B = Report} (λ w. P w.db) connect (λ u. clean >>= last) w here
        (λ u.
          bind_lem {B = Report} (λ w. P w.db) clean last (connect w).1 there
            (λ n. bind_lem {B = Report} (λ w. P w.db) disconnect (end n) v left (λ u. left)))

  days_keep :
      (P : S → Type 0)
      → OnlyConnects disconnect
      → (w : World S) (dry_run : Bool) (days : ℕ) → P (connect w).1.db
      → P (cleanup_expired_revoked_tokens env days dry_run (connect w).1).1.db
      → P (run_days env connect disconnect dry_run (some days) w).1.db
  unfolding run_days
  days_keep P d w dry_run days here there =
      let same =
        caught_lem (clean_up env connect disconnect days dry_run) (λ r. (r, 0))
          (λ e. (failed (message e), 1)) w in
      subst (λ w. P w.db) (sym same) (clean_up_keeps P d w dry_run days here there)

  cleaned_keeps :
      (P : S → Type 0) (dry_run : Bool) (days : ℕ) (v : World S)
      → P v.db
      → P (cleanup_expired_revoked_tokens env days false v).1.db
      → P (cleanup_expired_revoked_tokens env days dry_run v).1.db
  unfolding cleanup_expired_revoked_tokens
  cleaned_keeps P true days v there kept = there
  cleaned_keeps P false days v there kept = kept

  run_keeps :
      (P : S → Type 0)
      → OnlyConnects disconnect
      → (w : World S) (dry_run : Bool) (o : Option ℕ) → P w.db
      → P (connect w).1.db
      → ((days : ℕ)
          → o ≡ some days
          → P (cleanup_expired_revoked_tokens env days dry_run (connect w).1).1.db)
      → P (run_days env connect disconnect dry_run o w).1.db
  unfolding run_days
  run_keeps P d w dry_run none here there cleaned = here
  run_keeps P d w dry_run (some days) here there cleaned =
      days_keep P d w dry_run days there (cleaned days refl)

  either_keeps :
      {A : Type 0} (P : S → Type 0) (b : Bool) (m n : Eff S A) (w : World S)
      → P (m w).1.db
      → P (n w).1.db
      → P ((if b then m else n) w).1.db
  either_keeps P true m n w h k = h
  either_keeps P false m n w h k = k

  -- Whatever the arguments of the script are, and whether it succeeds or not: a row that holds the
  -- expiry of its token survives it as long as the token verifies at some later time, if the clock
  -- tolerance is at most a day.
  pub cleanup_script-keeps :
      ExpiryRespected env
      → DeletesExpired env
      → OnlyConnects connect
      → OnlyConnects disconnect
      → (args : List String) (w : World S) (token jti : String) (row : RevokedToken) (c : Claims)
        (t exp : ℕ)
      → env.config.jwt_clock_tolerance * 1000 ≤ day_ms
      → env.find_revoked jti w.db ≡ ok (some row)
      → c.exp ≡ some exp
      → row.token_expires_at ≡ exp * 1000
      → w.clock w.reads ≤ t
      → env.verify token env.config.jwt_public_key (verify_options env) t ≡ verified c
      → env.find_revoked jti (main env connect disconnect args w).1.db ≢ ok none
  unfolding main
  cleanup_script-keeps expiry deletes cs ds args w token jti row c t exp room found claimed written
        later verifies =
      let P : S → Type 0 = λ s. env.find_revoked jti s ≢ ok none in
      let here : P w.db = λ lost. absurd (ground arith) in
      let there : P (connect w).1.db = subst P (sym (cs.same_db w)) here in
      let v = (connect w).1 in
      let row_there : env.find_revoked jti v.db ≡ ok (some row) =
        subst (λ s. env.find_revoked jti s ≡ ok (some row)) (sym (cs.same_db w)) found in
      let cleaned : (dry_run : Bool) (days : ℕ)
          → valid_days (retention_days args) ≡ some days
          → P (cleanup_expired_revoked_tokens env days dry_run v).1.db =
        λ dry_run days valid. cleaned_keeps P dry_run days v there (
          cleanup_keeps_usable env expiry deletes days v token jti row c t exp
            (omega (arith, valid_lem (retention_days args) days valid)) row_there claimed written
            (ground (arith, cs.same_time w)) verifies) in
      either_keeps P (any (λ a. a === "--help" || a === "-h") args) (pure (usage, 0)) _ w here (
        run_keeps P ds w (any (λ a. a === "--dry-run") args) (valid_days (retention_days args)) here
          there (cleaned (any (λ a. a === "--dry-run") args)))
