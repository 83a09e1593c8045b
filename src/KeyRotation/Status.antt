-- ===== src/KeyRotation/Status.antt =====
-- When a key counts as overdue.
use af_auth.Base.{
  ℕ, ◌+◌, ◌*◌, ◌<◌, String, ◌≡◌, ◌↔◌, refl, sym, ap, ◌∙◌, true, Option, none, some, arith,
}
use af_auth.Base.Eff.{ok, World}
use af_auth.Base.Int.{ℤ, pos, negsuc, day_ms}
use af_auth.Env.{Config}
use af_auth.KeyRotation.{
  KeyRotationRecord, KeyType, UpdateColumns, CreateColumns, RotationTable, record_key_rotation,
  is_key_rotation_overdue, get_key_rotation_status, status_of_found, calculate_rotation_status,
  due_after, interval_of, is_negative, days_left,
}

-- A key is overdue at a time exactly when its rotation has a due time and that is past; the number
-- of whole days is rounded down, so no partial day delays it.
pub overdue_iff :
    (t : ℕ) (due : Option ℕ)
    → (is_negative (days_left t due) ≡ true) ↔ ((d : ℕ) × (due ≡ some d) × (d < t))
overdue_iff t none = ((λ h. absurd (ground arith)), λ (d, e, l). absurd (ground arith))
overdue_iff t (some d) = ((λ h. (d, refl, ground arith)), λ (d', e, l). ground arith)

pub due_after_lem :
    (t t' : ℕ) (i : ℤ)
    → ((d : ℕ) × (due_after t i ≡ some d) × (d < t'))
      ↔ ((n : ℕ) × (i ≡ pos n) × (0 < n) × (t + n * day_ms < t'))
due_after_lem t t' (pos n) = (
  (λ (d, e, l). (n, refl, ground arith, ground arith)),
  λ (n', e, p, l). let same : n' ≡ n = ground arith in (t + n * day_ms, ground arith, ground arith),
)
due_after_lem t t' (negsuc n) =
    ((λ (d, e, l). absurd (ground arith)), λ (n', e, p, l). absurd (ground arith))

-- Prisma's `upsert`: what returned is found by its key afterwards, with the columns of the half that
-- was used; both halves write the same due time here.
pub record UpsertFound {S : Type 0} (table : RotationTable S) : Type 0 where
  pub upsert_found :
      (key : String) (u : UpdateColumns) (c : CreateColumns) (row : KeyRotationRecord) (s : S)
      → (table.upsert key u c s).0 ≡ ok row
      → c.key_identifier ≡ key
      → c.next_rotation_due ≡ u.next_rotation_due
      → (found : KeyRotationRecord) × (table.find key (table.upsert key u c s).1 ≡ ok (some found))
        × (found.next_rotation_due ≡ u.next_rotation_due)

module _ {S : Type 0} (config : Config) (table : RotationTable S) where
  is_overdue_found :
      (key : String) (found : KeyRotationRecord) (w : World S)
      → table.find key w.db ≡ ok (some found)
      → (is_key_rotation_overdue config table key w).0
        ≡ ok (is_negative (days_left (w.clock w.reads) found.next_rotation_due))
  unfolding is_key_rotation_overdue get_key_rotation_status status_of_found
      calculate_rotation_status
  is_overdue_found key found w h = ground arith

  -- A key whose rotation was recorded at a time `t` for an interval of `n` days is reported overdue
  -- from the database that this leaves exactly when more than `n` days have passed since `t`; with an
  -- interval of no days, or a negative one, it never is.
  pub record_key_rotation-overdue :
      UpsertFound table
      → (key : String) (key_type : KeyType) (interval : Option ℤ) (metadata : Option String)
        (row : KeyRotationRecord) (w w' : World S)
      → (record_key_rotation config table key key_type interval metadata w).0 ≡ ok row
      → w'.db ≡ (record_key_rotation config table key key_type interval metadata w).1.db
      → ((is_key_rotation_overdue config table key w').0 ≡ ok true) ↔ (
          (n : ℕ) × (interval_of config table interval key_type ≡ pos n)
          × (0 < n)
          × (w.clock w.reads + n * day_ms < w'.clock w'.reads))
  unfolding record_key_rotation
  record_key_rotation-overdue laws key key_type interval metadata row w w' h same =
      let (found, e, due) = laws.upsert_found key _ _ row w.db h refl refl in
      let reported = is_overdue_found key found w' (rw same e) in
      let past = overdue_iff (w'.clock w'.reads) found.next_rotation_due in
      let days =
        due_after_lem (w.clock w.reads) (w'.clock w'.reads)
          (interval_of config table interval key_type) in
      (
        (λ yes_overdue.
            let (d, is_due, l) = past.0 (ground (arith, reported)) in
            days.0 (d, sym due ∙ is_due, l)),
        λ long_ago.
            let (d, is_due, l) = days.1 long_ago in reported ∙ ap ok (past.1 (d, due ∙ is_due, l)),
      )
