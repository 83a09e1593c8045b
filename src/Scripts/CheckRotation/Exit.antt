-- ===== src/Scripts/CheckRotation/Exit.antt =====
-- What the exit code means.
use af_auth.Base.{ℕ, ◌+◌, ◌*◌, ◌<◌, ◌≡◌, Bool, true, some, List, [], ◌∷◌, if◌then◌else◌, ◌||◌, ◌⊎◌}
use af_auth.Base.Int.{ℤ, pos, day_ms}
use af_auth.Base.Eff.{Eff, pure, ◌>>=◌, ◌>>◌}
use af_auth.Env.{Env}
use af_auth.ServiceRegistry.{ServiceEntry}
use af_auth.KeyRotation.{KeyRotationStatus}

-- Some element is as the predicate says.
abbrev pub Some : {A : Type 0} → (A → Type 0) → List A → Type 0
Some P [] = ⊥
Some P (x ∷ xs) = P x ⊎ Some P xs

abbrev pub IsOverdue : KeyRotationStatus → Type 0
IsOverdue s = s.is_overdue ≡ true

-- The key was rotated more than the configured number of days before `t`, and that is not zero.
abbrev pub IsServiceOverdue : ℤ → ℕ → ServiceEntry → Type 0
IsServiceOverdue interval t s =
    (rotated : ℕ) × (n : ℕ) × (s.last_api_key_rotated_at ≡ some rotated)
    × (interval ≡ pos n)
    × (0 < n)
    × (rotated + n * day_ms < t)

module _ {S A : Type 0} (connect disconnect : Eff S (Unit {0}))
    (keys services : Eff S (A × Bool)) where
  abbrev run : Eff S ℕ
  run = do connect; k ← keys; j ← services; disconnect; pure (if k.1 || j.1 then 1 else 0)
