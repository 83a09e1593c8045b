-- ===== src/KeyRotation.antt =====
-- src/services/key-rotation.ts: when each key was rotated and when that is due again. The table is
-- Prisma's, and a parameter. A day is 24 hours: the process runs in a time zone with no change of
-- the clock, such as UTC. Logging only prints, except that `checkAndLogOverdueRotations` does nothing
-- else: its notices are returned.
pub mod Status
pub mod Tracking
use af_auth.Base.{
  ℕ, ◌+◌, ◌*◌, String, Bool, true, false, Option, none, some, List, [], ◌∷◌, ◌++◌, or_null, leb,
  ltb, if◌then◌else◌,
}
use af_auth.Base.Eff.{Result, ok, err, Eff, pure, query, command, now, branch, ◌>>=◌, ◌>>◌}
use af_auth.Base.Int.{ℤ, pos, negsuc, sub_ℕ, leb_ℤ, ltb_ℤ, floor_div, abs, day_ms}
use af_auth.Env.{Config}

pub data KeyType : Type 0 where
  jwt_signing jwt_verification github_token_encryption other_key : KeyType

-- `KeyRotationRecord`, also the row of the table.
pub record KeyRotationRecord : Type 0 where
  pub id : String
  pub key_identifier : String
  pub key_type : KeyType
  pub last_rotated_at : ℕ
  pub next_rotation_due : Option ℕ
  pub is_active : Bool
  pub rotation_interval_days : Option ℤ
  pub metadata : Option String
  pub created_at : ℕ
  pub updated_at : ℕ

-- The two halves of the upsert. Missing metadata leaves the column as it is.
pub record UpdateColumns : Type 0 where
  pub last_rotated_at : ℕ
  pub next_rotation_due : Option ℕ
  pub rotation_interval_days : ℤ
  pub metadata : Option String
  pub updated_at : ℕ

pub record CreateColumns : Type 0 where
  pub key_identifier : String
  pub key_type : KeyType
  pub last_rotated_at : ℕ
  pub next_rotation_due : Option ℕ
  pub is_active : Bool
  pub rotation_interval_days : ℤ
  pub metadata : Option String

-- `prisma.jWTKeyRotation`
pub record RotationTable (S : Type 0) : Type 0 where
  pub find : String → S → Result (Option KeyRotationRecord)
  pub list : Bool → S → Result (List KeyRotationRecord)
  pub create : CreateColumns → S → Result KeyRotationRecord × S
  pub upsert : String → UpdateColumns → CreateColumns → S → Result KeyRotationRecord × S

pub record KeyRotationStatus : Type 0 where
  pub key_identifier : String
  pub key_type : KeyType
  pub last_rotated_at : ℕ
  pub next_rotation_due : Option ℕ
  pub is_active : Bool
  pub is_overdue : Bool
  pub days_until_due : Option ℤ
  pub days_since_rotation : ℤ
  pub rotation_interval_days : Option ℤ

-- What `checkAndLogOverdueRotations` writes to the log.
pub data Notice : Type 0 where
  overdue : String → ℤ → Option ℕ → Notice
  due_soon : String → ℤ → Notice

-- `lastRotatedAt` and the interval, if that is positive.
abbrev pub due_after : ℕ → ℤ → Option ℕ
due_after t (pos n) = if ltb 0 n then some (t + n * day_ms) else none
due_after t (negsuc n) = none

abbrev pub days_left : ℕ → Option ℕ → Option ℤ
days_left t none = none
days_left t (some due) = some (floor_div (sub_ℕ due t) day_ms)

abbrev pub is_negative : Option ℤ → Bool
is_negative none = false
is_negative (some d) = ltb_ℤ d (pos 0)

-- `calculateRotationStatus`, at the time that it reads.
abbrev pub status_at : ℕ → KeyRotationRecord → KeyRotationStatus
status_at t r = record {
  key_identifier = r.key_identifier;
  key_type = r.key_type;
  last_rotated_at = r.last_rotated_at;
  next_rotation_due = r.next_rotation_due;
  is_active = r.is_active;
  is_overdue = is_negative (days_left t r.next_rotation_due);
  days_until_due = days_left t r.next_rotation_due;
  days_since_rotation = floor_div (sub_ℕ t r.last_rotated_at) day_ms;
  rotation_interval_days = r.rotation_interval_days;
}

-- `status.daysUntilDue ? Math.abs(status.daysUntilDue) : null`
abbrev days_overdue : Option ℤ → Option ℕ
days_overdue none = none
days_overdue (some (pos ℕ.zero)) = none
days_overdue (some d) = some (abs d)

abbrev soon_notice : String → Option ℤ → List Notice
soon_notice key none = []
soon_notice key (some d) = if leb_ℤ d (pos 30) then due_soon key d ∷ [] else []

abbrev pub notices_of : KeyRotationStatus → List Notice
notices_of s =
    if s.is_overdue
    then overdue s.key_identifier s.days_since_rotation (days_overdue s.days_until_due) ∷ []
    else soon_notice s.key_identifier s.days_until_due

module _ {S : Type 0} (config : Config) (table : RotationTable S) where
  abbrev pub default_rotation_interval : KeyType → ℤ
  default_rotation_interval jwt_signing = pos config.jwt_key_rotation_interval_days
  default_rotation_interval jwt_verification = pos config.jwt_key_rotation_interval_days
  default_rotation_interval github_token_encryption =
      pos config.github_token_encryption_key_rotation_interval_days
  default_rotation_interval other_key = pos 0

  -- `options?.rotationIntervalDays ?? getDefaultRotationInterval(keyType)`
  abbrev pub interval_of : Option ℤ → KeyType → ℤ
  interval_of none key_type = default_rotation_interval key_type
  interval_of (some d) key_type = d

  unfoldable pub record_key_rotation :
      String → KeyType → Option ℤ → Option String → Eff S KeyRotationRecord
  record_key_rotation key_identifier key_type interval metadata = do
    t ← now
    command (
        table.upsert key_identifier
          (record {
            last_rotated_at = t;
            next_rotation_due = due_after t (interval_of interval key_type);
            rotation_interval_days = interval_of interval key_type;
            metadata = metadata;
            updated_at = t;
          })
          (record {
            key_identifier = key_identifier;
            key_type = key_type;
            last_rotated_at = t;
            next_rotation_due = due_after t (interval_of interval key_type);
            is_active = true;
            rotation_interval_days = interval_of interval key_type;
            metadata = or_null metadata;
          }))

  unfoldable pub calculate_rotation_status : KeyRotationRecord → Eff S KeyRotationStatus
  calculate_rotation_status r = do t ← now; pure (status_at t r)

  status_of_found : Option KeyRotationRecord → Eff S (Option KeyRotationStatus)
  status_of_found none = pure none
  status_of_found (some r) = do s ← calculate_rotation_status r; pure (some s)

  unfoldable pub get_key_rotation_status : String → Eff S (Option KeyRotationStatus)
  unfolding status_of_found
  get_key_rotation_status key_identifier = do
    r ← query (table.find key_identifier)
    status_of_found r

  -- `records.map(calculateRotationStatus)`; each status reads the clock.
  statuses_of : List KeyRotationRecord → Eff S (List KeyRotationStatus)
  statuses_of [] = pure []
  statuses_of (r ∷ rs) = do s ← calculate_rotation_status r; rest ← statuses_of rs; pure (s ∷ rest)

  unfoldable pub get_all_key_rotation_statuses : Bool → Eff S (List KeyRotationStatus)
  unfolding statuses_of
  get_all_key_rotation_statuses active_only = do rs ← query (table.list active_only); statuses_of rs

  abbrev overdue_of : Option KeyRotationStatus → Bool
  overdue_of none = false
  overdue_of (some s) = s.is_overdue

  unfoldable pub is_key_rotation_overdue : String → Eff S Bool
  is_key_rotation_overdue key_identifier = do
    s ← get_key_rotation_status key_identifier
    pure (overdue_of s)

  create_missing :
      String → KeyType → ℕ → ℤ → Option String → Option KeyRotationRecord → Eff S (Unit {0})
  create_missing key_identifier key_type t interval metadata (some existing) = pure tt
  create_missing key_identifier key_type t interval metadata none = do
    command (
        table.create (record {
          key_identifier = key_identifier;
          key_type = key_type;
          last_rotated_at = t;
          next_rotation_due = due_after t interval;
          is_active = true;
          rotation_interval_days = interval;
          metadata = or_null metadata;
        }))
    pure tt

  unfoldable pub ensure_key_rotation_record :
      String → KeyType → ℕ → ℤ → Option String → Eff S (Unit {0})
  unfolding create_missing
  ensure_key_rotation_record key_identifier key_type t interval metadata = do
    existing ← query (table.find key_identifier)
    create_missing key_identifier key_type t interval metadata existing

  abbrev pub initial : String → KeyType → ℕ → Eff S (Unit {0})
  initial key_identifier key_type t =
      ensure_key_rotation_record key_identifier key_type t (default_rotation_interval key_type)
        (some "Initialized during deployment")

  unfoldable pub initialize_key_rotation_tracking : Eff S (Unit {0})
  initialize_key_rotation_tracking = do
    t ← now
    initial "jwt_signing_key" jwt_signing t
    initial "jwt_verification_key" jwt_verification t
    initial "github_token_encryption_key" github_token_encryption t

  concat_notices : List KeyRotationStatus → List Notice
  concat_notices [] = []
  concat_notices (s ∷ rest) = notices_of s ++ concat_notices rest

  unfoldable pub check_and_log_overdue_rotations : Eff S (List Notice)
  unfolding concat_notices
  check_and_log_overdue_rotations = do
    statuses ← get_all_key_rotation_statuses true
    pure (concat_notices statuses)
