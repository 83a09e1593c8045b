-- ===== src/Scripts/CheckRotation.antt =====
-- scripts/check-key-rotation.ts: the report on the rotation of keys and service API keys, whose exit
-- code says whether one is overdue. What is printed of each is a value; headings and dates only print.
pub mod Exit
use af_auth.Base.{
  ℕ, String, Bool, true, false, not, ◌||◌, Option, none, some, List, [], ◌∷◌, map, any, ◌===◌,
  ◌+++◌, if◌then◌else◌, show, show_ℤ,
}
use af_auth.Base.Int.{ℤ, pos, negsuc, sub_ℕ, leb_ℤ, floor_div, abs, day_ms}
use af_auth.Base.Eff.{Result, ok, err, Thrown, Eff, pure, now, branch, try_catch, ◌>>=◌, ◌>>◌}
use af_auth.Env.{Env, Config}
use af_auth.ServiceRegistry.{ServiceEntry, list_services}
use af_auth.KeyRotation.{
  KeyRotationStatus, RotationTable, get_all_key_rotation_statuses, initialize_key_rotation_tracking,
  due_after, days_left, is_negative,
}

-- `formatDays`, without the symbols.
unfoldable pub format_days : Option ℤ → Bool → String
format_days none is_overdue = "N/A"
format_days (some days) is_overdue =
    if is_overdue
    then show (abs days) +++ " days OVERDUE"
    else if leb_ℤ days (pos 7)
    then show_ℤ days +++ " days (urgent)"
    else if leb_ℤ days (pos 30)
    then show_ℤ days +++ " days (soon)"
    else show_ℤ days +++ " days"

-- What is printed of a key or a service: its name, how many days ago it was rotated, and its status.
pub record Line : Type 0 where
  pub name : String
  pub is_active : Bool
  pub days_since : Option ℤ
  pub status : String

abbrev key_status : KeyRotationStatus → String
key_status s = elim s.next_rotation_due [
  | none ↦ "No rotation policy configured"
  | some due ↦ format_days s.days_until_due s.is_overdue
]

abbrev pub key_line : KeyRotationStatus → Line
key_line s = record {
  name = s.key_identifier;
  is_active = s.is_active;
  days_since = some s.days_since_rotation;
  status = key_status s;
}

-- When a service's key is due: never without a rotation, or without a positive interval.
abbrev pub service_due : ℤ → ServiceEntry → Option ℕ
service_due interval s = elim s.last_api_key_rotated_at [
  | none ↦ none
  | some t ↦ due_after t interval
]

abbrev pub is_service_overdue : ℤ → ℕ → ServiceEntry → Bool
is_service_overdue interval t s = is_negative (days_left t (service_due interval s))

abbrev service_status : ℤ → ℕ → ServiceEntry → String
service_status interval t s = elim s.last_api_key_rotated_at [
  | none ↦ "No rotation history - consider rotating soon"
  | some rotated ↦ elim (due_after rotated interval) [
    | none ↦ "No rotation policy configured"
    | some due ↦ format_days (days_left t (some due)) (is_service_overdue interval t s)
  ]
]

abbrev days_ago : ℕ → Option ℕ → Option ℤ
days_ago t none = none
days_ago t (some rotated) = some (floor_div (sub_ℕ t rotated) day_ms)

abbrev pub service_line : ℤ → ℕ → ServiceEntry → Line
service_line interval t s = record {
  name = s.service_identifier;
  is_active = s.is_active;
  days_since = days_ago t s.last_api_key_rotated_at;
  status = service_status interval t s;
}

abbrev pub any_overdue : List KeyRotationStatus → Bool
any_overdue statuses = any (λ (s : KeyRotationStatus). s.is_overdue) statuses

module _ {S : Type 0} (env : Env S) (table : RotationTable S) (service_interval : ℤ) where
  -- Without records the tracking is started, and nothing is overdue.
  unfoldable pub display_statuses : List KeyRotationStatus → Eff S (List Line × Bool)
  display_statuses [] = do initialize_key_rotation_tracking env.config table; pure ([], false)
  display_statuses (s ∷ rest) = pure (map key_line (s ∷ rest), any_overdue (s ∷ rest))

  unfoldable pub display_key_rotation_status : Bool → Eff S (List Line × Bool)
  display_key_rotation_status active_only = do
    statuses ← get_all_key_rotation_statuses env.config table active_only
    display_statuses statuses

  unfoldable pub display_services : List ServiceEntry → Eff S (List Line × Bool)
  display_services [] = pure ([], false)
  display_services (s ∷ rest) = do
    t ← now
    pure (
      map (service_line service_interval t) (s ∷ rest),
      any (is_service_overdue service_interval t) (s ∷ rest),
    )

  unfoldable pub display_service_rotation_status : Bool → Eff S (List Line × Bool)
  display_service_rotation_status active_only = do
    services ← list_services env active_only
    display_services services

  unfoldable pub report : Eff S (Unit {0}) → Eff S (Unit {0}) → Bool → Eff S ℕ
  report connect disconnect include_inactive = do
    connect
    keys ← display_key_rotation_status (not include_inactive)
    services ← display_service_rotation_status (not include_inactive)
    disconnect
    pure (if keys.1 || services.1 then 1 else 0)

  -- The exit code; an error closes the connection too.
  unfoldable pub main : Eff S (Unit {0}) → Eff S (Unit {0}) → List String → Eff S ℕ
  main connect disconnect args =
      try_catch (report connect disconnect (any (λ a. a === "--all") args))
        (λ e. do disconnect; pure 1)
