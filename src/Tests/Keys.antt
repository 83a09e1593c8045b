-- ===== src/Tests/Keys.antt =====
-- The theorems on the rotation of keys at a small table.
use af_auth.Base.{
  ap, Option-cases, ℕ, ◌*◌, String, ◌≡◌, refl, true, Option, none, some, List, [], ◌∷◌, arith, inl,
  inr, Bool-cases, ◌===◌, eq_iff, eq_refl, if◌then◌else◌,
}
use af_auth.Base.Int.{pos, day_ms}
use af_auth.Base.Eff.{Result, ok, err, error, World}
use af_auth.KeyRotation.{
  jwt_signing, KeyRotationRecord, CreateColumns, RotationTable, record_key_rotation,
  initialize_key_rotation_tracking, ensure_key_rotation_record,
}
use af_auth.KeyRotation.Status.{UpsertFound}
use af_auth.KeyRotation.Tracking.{CreateKept, AllTracked}
use af_auth.Tests.Db.{config}

-- The table as a list, in which the first row of a key counts.
abbrev Rows : Type 0
Rows = List KeyRotationRecord

abbrev find_row : String → Rows → Option KeyRotationRecord
find_row key [] = none
find_row key (r ∷ rs) =
    let rest = find_row key rs in if r.key_identifier === key then some r else rest

abbrev pub created : CreateColumns → KeyRotationRecord
created c = record {
  id = c.key_identifier;
  key_identifier = c.key_identifier;
  key_type = c.key_type;
  last_rotated_at = c.last_rotated_at;
  next_rotation_due = c.next_rotation_due;
  is_active = c.is_active;
  rotation_interval_days = some c.rotation_interval_days;
  metadata = c.metadata;
  created_at = c.last_rotated_at;
  updated_at = c.last_rotated_at;
}

-- A row that is there already is refused, as its unique column asks.
abbrev create_unless :
    Option KeyRotationRecord → CreateColumns → Rows → Result KeyRotationRecord × Rows
create_unless none c s = (ok (created c), created c ∷ s)
create_unless (some r) c s = (err (error "Unique constraint failed"), s)

abbrev table : RotationTable Rows
table = record {
  find = λ key s. ok (find_row key s);
  list = λ active s. ok s;
  create = λ c s. create_unless (find_row c.key_identifier s) c s;
  upsert = λ key u c s. (ok (created c), created c ∷ s);
}

abbrev rows_world : Rows → ℕ → World Rows
rows_world s t = record {
  db = s;
  clock = λ n. t;
  reads = 0;
  random = λ n. "";
  drawn = 0;
  metrics = [];
  key_cache = [];
}

upserts : UpsertFound table
upserts = record {
  upsert_found =
      λ key u c row s h named same. (created c, ground (arith, eq_refl key, named), same);
}

keeps_lem :
    (c : CreateColumns) (key : String) (row : KeyRotationRecord) (s : Rows)
    → find_row key s ≡ some row
    → find_row key (create_unless (find_row c.key_identifier s) c s).1 ≡ some row
keeps_lem c key row s h = elim (Bool-cases (c.key_identifier === key)) [
  | inl e ↦ let q : c.key_identifier ≡ key = (eq_iff c.key_identifier key).0 e in rw (q, h) h
  | inr e ↦ elim (Option-cases (find_row c.key_identifier s)) [
    | inl f ↦ ground (arith, e, f, h)
    | inr (r, f) ↦ ground (arith, f, h)
  ]
]

creates : CreateKept table
creates = record {
  create_found = λ c row s h. elim (Option-cases (find_row c.key_identifier s)) [
    | inl f ↦ ground (arith, eq_refl c.key_identifier, f)
    | inr (r, f) ↦ absurd (ground (arith, f))
  ];
  create_kept = λ c key row s h. ap ok (keeps_lem c key row s (ground (arith, h)));
}

abbrev pub rotated : KeyRotationRecord
rotated = record {
  id = "jwt_signing_key";
  key_identifier = "jwt_signing_key";
  key_type = jwt_signing;
  last_rotated_at = 0;
  next_rotation_due = some (180 * day_ms);
  is_active = true;
  rotation_interval_days = some (pos 180);
  metadata = none;
  created_at = 0;
  updated_at = 0;
}

rotates :
    (record_key_rotation config table "jwt_signing_key" jwt_signing none none (rows_world [] 0)).0
    ≡ ok rotated
unfolding record_key_rotation
rotates = refl

abbrev three : Rows
three = (initialize_key_rotation_tracking config table (rows_world [] 0)).1.db

all_tracked : AllTracked config table three
unfolding initialize_key_rotation_tracking ensure_key_rotation_record
all_tracked = ((_, refl), ((_, refl), (_, refl)))
