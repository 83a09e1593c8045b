-- ===== src/Scripts/CleanupTokens.antt =====
-- scripts/cleanup-revoked-tokens.ts: the clean-up of the revoked tokens. `connect` and `disconnect`,
-- which src/db does not export, are parameters. What is printed is a value.
pub mod Kept
use af_auth.Base.{
  ℕ, suc, String, Bool, true, false, ◌||◌, Option, none, some, List, [], ◌∷◌, any, ◌===◌, ◌+++◌,
  if◌then◌else◌, split, starts_with, parse_int,
}
use af_auth.Base.Int.{ℤ, pos, negsuc}
use af_auth.Base.Eff.{Result, ok, err, Thrown, message, Eff, pure, try_catch, ◌>>=◌, ◌>>◌}
use af_auth.Env.{Env}
use af_auth.Revocation.{cleanup_expired_revoked_tokens}

pub data Report : Type 0 where
  usage : Report
  invalid_retention : Report
  would_delete : ℕ → ℕ → Report
  deleted : ℕ → ℕ → Report
  failed : String → Report

-- `args.find(arg => arg.startsWith('--retention='))`
abbrev pub retention_arg : List String → Option String
retention_arg [] = none
retention_arg (a ∷ args) =
    let rest = retention_arg args in if starts_with a "--retention=" then some a else rest

-- `parseInt(arg.split('=')[1], 10)`
abbrev second_part : List String → Option ℤ
second_part [] = none
second_part (a ∷ []) = none
second_part (a ∷ b ∷ rest) = parse_int b

-- `none` is NaN.
unfoldable pub retention_days : List String → Option ℤ
retention_days args = elim (retention_arg args) [
  | none ↦ some (pos 7)
  | some arg ↦ second_part (split b'=' arg)
]

-- The days, if they are a number that is at least 1.
abbrev pub valid_days : Option ℤ → Option ℕ
valid_days none = none
valid_days (some (pos ℕ.zero)) = none
valid_days (some (pos (ℕ.suc n))) = some (suc n)
valid_days (some (negsuc n)) = none

module _ {S : Type 0} (env : Env S) where
  unfoldable pub clean_up : Eff S (Unit {0}) → Eff S (Unit {0}) → ℕ → Bool → Eff S Report
  clean_up connect disconnect days dry_run = do
    connect
    count ← cleanup_expired_revoked_tokens env days dry_run
    disconnect
    pure (if dry_run then would_delete count days else deleted count days)

  -- The report and the exit code. An error does not close the connection.
  unfoldable pub run_days :
      Eff S (Unit {0}) → Eff S (Unit {0}) → Bool → Option ℕ → Eff S (Report × ℕ)
  run_days connect disconnect dry_run none = pure (invalid_retention, 1)
  run_days connect disconnect dry_run (some days) =
      try_catch (do r ← clean_up connect disconnect days dry_run; pure (r, 0))
        (λ e. pure (failed (message e), 1))

  unfoldable pub main : Eff S (Unit {0}) → Eff S (Unit {0}) → List String → Eff S (Report × ℕ)
  main connect disconnect args =
      if any (λ a. a === "--help" || a === "-h") args
      then pure (usage, 0)
      else run_days connect disconnect (any (λ a. a === "--dry-run") args)
          (valid_days (retention_days args))
