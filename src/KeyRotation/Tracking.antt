-- ===== src/KeyRotation/Tracking.antt =====
-- The backfill of the rotation history at deployment.
use af_auth.Base.{
  or_null, ℕ, suc, String, ◌≡◌, refl, ◌∙◌, subst, sym, true, Option, some, arith, ◌⊎◌, inl, inr,
}
use af_auth.Base.Eff.{Result, ok, err, Eff, ◌>>◌, World, Result-cases, Lookup-cases, Thrown}
use af_auth.Base.Int.{ℤ}
use af_auth.Env.{Config}
use af_auth.KeyRotation.{
  KeyRotationRecord, KeyType, CreateColumns, RotationTable, ensure_key_rotation_record,
  create_missing, initialize_key_rotation_tracking, due_after, jwt_signing, jwt_verification,
  github_token_encryption, default_rotation_interval, initial,
}

-- Prisma's `create`: after it returned, its row is found, and every row that was found before is
-- found as it was.
pub record CreateKept {S : Type 0} (table : RotationTable S) : Type 0 where
  pub create_found :
      (c : CreateColumns) (row : KeyRotationRecord) (s : S)
      → (table.create c s).0 ≡ ok row
      → table.find c.key_identifier (table.create c s).1 ≡ ok (some row)
  pub create_kept :
      (c : CreateColumns) (key : String) (row : KeyRotationRecord) (s : S)
      → table.find key s ≡ ok (some row)
      → table.find key (table.create c s).1 ≡ ok (some row)

module _ {S : Type 0} (config : Config) (table : RotationTable S) where
  -- The table has a row for the key.
  abbrev pub Tracked : String → S → Type 0
  Tracked key s = (row : KeyRotationRecord) × (table.find key s ≡ ok (some row))

  -- Every row of the first state is found unchanged in the second.
  abbrev pub Keeps : S → S → Type 0
  Keeps s s' =
      (key : String) (row : KeyRotationRecord)
      → table.find key s ≡ ok (some row)
      → table.find key s' ≡ ok (some row)

  abbrev created : String → KeyType → ℕ → ℤ → Option String → CreateColumns
  created key key_type t interval m = record {
    key_identifier = key;
    key_type = key_type;
    last_rotated_at = t;
    next_rotation_due = due_after t interval;
    is_active = true;
    rotation_interval_days = interval;
    metadata = or_null m;
  }

  -- A key that is tracked already is left alone.
  ensure-Tracked :
      (key : String) (key_type : KeyType) (t : ℕ) (interval : ℤ) (m : Option String) (w : World S)
      → Tracked key w.db
      → ensure_key_rotation_record config table key key_type t interval m w ≡ (ok tt, w)
  unfolding ensure_key_rotation_record create_missing
  ensure-Tracked key key_type t interval m w (row, f) = ground arith

  ensure_lem :
      CreateKept table
      → (key : String) (key_type : KeyType) (t : ℕ) (interval : ℤ) (m : Option String) (w : World S)
      → Keeps w.db (ensure_key_rotation_record config table key key_type t interval m w).1.db
        × (((ensure_key_rotation_record config table key key_type t interval m w).0 ≡ ok tt
              × Tracked key
                  (ensure_key_rotation_record config table key key_type t interval m w).1.db)
            ⊎ ((e : Thrown) × ((ensure_key_rotation_record config table key key_type t interval m
                    w).0
                  ≡ err e)))
  unfolding ensure_key_rotation_record create_missing
  ensure_lem laws key key_type t interval m w = elim (Lookup-cases (table.find key w.db)) [
    | inl (row, f) ↦ ((λ k r h. ground arith), inl (ground arith, (row, ground arith)))
    | inr (inl f) ↦
        let c : CreateColumns = created key key_type t interval m in
        elim (Result-cases (table.create c w.db).0) [
          | inl (row, e) ↦ (
            (λ k r h. ground (arith, laws.create_kept c k r w.db h)),
            inl (ground arith, (row, ground (arith, laws.create_found c row w.db e))),
          )
          | inr (x, e) ↦
              ((λ k r h. ground (arith, laws.create_kept c k r w.db h)), inr (x, ground arith))
        ]
    | inr (inr (x, f)) ↦ ((λ k r h. ground arith), inr (x, ground arith))
  ]

  -- A step that ends in `r` keeps every row, and if it returns, its database satisfies `P`.
  abbrev pub Ends : (S → Type 0) → World S → Result (Unit {0}) × World S → Type 0
  Ends P w r = Keeps w.db r.1.db × (((r.0 ≡ ok tt) × P r.1.db) ⊎ ((e : Thrown) × (r.0 ≡ err e)))

  Tracked-Keeps : (key : String) (s s' : S) → Keeps s s' → Tracked key s → Tracked key s'
  Tracked-Keeps key s s' k (row, f) = (row, k key row f)

  skip_lem : (m n : Eff S (Unit {0})) (w : World S) → m w ≡ (ok tt, w) → (m >> n) w ≡ n w
  skip_lem m n w h = ground arith

  then_lem :
      (key : String) (Q : S → Type 0) (m n : Eff S (Unit {0})) (w : World S)
      → Ends (Tracked key) w (m w)
      → ((w' : World S) → Ends Q w' (n w'))
      → Ends (λ s. Tracked key s × Q s) w ((m >> n) w)
  then_lem key Q m n w (kept, inl (e, tracked)) rest =
      let (kept', after) = rest (m w).1 in
      let run : (m >> n) w ≡ n (m w).1 = ground arith in
      subst (λ r. Ends (λ s. Tracked key s × Q s) w r) (sym run)
        (
          (λ k r f. kept' k r (kept k r f)),
          elim after [
            | inl (e', q) ↦
                inl (e', (Tracked-Keeps key (m w).1.db (n (m w).1).1.db kept' tracked, q))
            | inr (x, f) ↦ inr (x, f)
          ],
        )
  then_lem key Q m n w (kept, inr (x, f)) rest =
      let run : (m >> n) w ≡ (err x, (m w).1) = ground arith in
      subst (λ r. Ends (λ s. Tracked key s × Q s) w r) (sym run) (kept, inr (x, refl))

  initial-Ends :
      CreateKept table
      → (key : String) (key_type : KeyType) (t : ℕ) (w : World S)
      → Ends (Tracked key) w (initial config table key key_type t w)
  initial-Ends laws key key_type t w =
      ensure_lem laws key key_type t (default_rotation_interval config table key_type)
        (some "Initialized during deployment") w

  initial-Tracked :
      (key : String) (key_type : KeyType) (t : ℕ) (w : World S)
      → Tracked key w.db
      → initial config table key key_type t w ≡ (ok tt, w)
  initial-Tracked key key_type t w there =
      ensure-Tracked key key_type t (default_rotation_interval config table key_type)
        (some "Initialized during deployment") w there

  -- The three keys of the deployment.
  abbrev pub AllTracked : S → Type 0
  AllTracked s =
      Tracked "jwt_signing_key" s
      × (Tracked "jwt_verification_key" s × Tracked "github_token_encryption_key" s)

  -- The backfill changes no row that the table had, whether it returns or throws; if it returns, each
  -- of the three keys has a row.
  pub initialize_key_rotation_tracking-Keeps :
      CreateKept table
      → (w : World S)
      → Keeps w.db (initialize_key_rotation_tracking config table w).1.db
        × (((initialize_key_rotation_tracking config table w).0 ≡ ok tt
              × AllTracked (initialize_key_rotation_tracking config table w).1.db)
            ⊎ ((e : Thrown) × ((initialize_key_rotation_tracking config table w).0 ≡ err e)))
  unfolding initialize_key_rotation_tracking
  initialize_key_rotation_tracking-Keeps laws w =
      let t : ℕ = w.clock w.reads in
      let last : S → Type 0 = Tracked "github_token_encryption_key" in
      let w' : World S = record w { reads = suc w.reads } in
      then_lem "jwt_signing_key" (λ s. Tracked "jwt_verification_key" s × last s)
        (initial config table "jwt_signing_key" jwt_signing t)
        (initial config table "jwt_verification_key" jwt_verification t
          >> initial config table "github_token_encryption_key" github_token_encryption t)
        w' (initial-Ends laws "jwt_signing_key" jwt_signing t w')
        (λ v.
          then_lem "jwt_verification_key" last
            (initial config table "jwt_verification_key" jwt_verification t)
            (initial config table "github_token_encryption_key" github_token_encryption t) v
            (initial-Ends laws "jwt_verification_key" jwt_verification t v)
            (λ v'. initial-Ends laws "github_token_encryption_key" github_token_encryption t v'))

  -- Running the backfill again from a database where each of the three keys has a row, as it leaves
  -- one when it returns, changes nothing there.
  pub initialize_key_rotation_tracking-again :
      (w : World S)
      → AllTracked w.db
      → ((initialize_key_rotation_tracking config table w).0 ≡ ok tt)
        × ((initialize_key_rotation_tracking config table w).1.db ≡ w.db)
  unfolding initialize_key_rotation_tracking
  initialize_key_rotation_tracking-again w (a, (b, c)) =
      let t : ℕ = w.clock w.reads in
      let w' : World S = record w { reads = suc w.reads } in
      let run : initialize_key_rotation_tracking config table w ≡ (ok tt, w') =
        skip_lem (initial config table "jwt_signing_key" jwt_signing t)
          (initial config table "jwt_verification_key" jwt_verification t
            >> initial config table "github_token_encryption_key" github_token_encryption t)
          w' (initial-Tracked "jwt_signing_key" jwt_signing t w' a)
        ∙ skip_lem (initial config table "jwt_verification_key" jwt_verification t)
            (initial config table "github_token_encryption_key" github_token_encryption t) w'
            (initial-Tracked "jwt_verification_key" jwt_verification t w' b)
        ∙ initial-Tracked "github_token_encryption_key" github_token_encryption t w' c in
      rw run (refl, refl)
