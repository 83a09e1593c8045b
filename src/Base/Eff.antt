-- ===== src/Base/Eff.antt =====
-- An asynchronous function of the program: it reads and changes the world, and returns or throws.
-- What was written before a throw stays written, so the world comes back beside the error too.
use Prim.Native.Nat.{ℕ, suc}
use Prim.Native.String.{String}
use mathlib.Core.Path.{◌≡◌, refl}
use mathlib.Core.Option.{Option, none, some}
use mathlib.Core.Bool.{Bool, true, false}
use mathlib.Core.Logic.{◌⊎◌, inl, inr}
use mathlib.Core.List.{List, [], ◌∷◌, ◌++◌}

-- What `throw` carries: an `Error` with its message, or any other value.
pub data Thrown : Type 0 where
  error : String → Thrown
  other : Thrown

-- `error instanceof Error ? error.message : 'Unknown error'`
abbrev pub message : Thrown → String
message (error m) = m
message other = "Unknown error"

pub data Result {ℓ} (A : Type ℓ) : Type ℓ where
  ok : A → Result A
  err : Thrown → Result A

pub Result-cases {ℓ} :
    {A : Type ℓ} (r : Result A) → ((a : A) × (r ≡ ok a)) ⊎ ((e : Thrown) × (r ≡ err e))
Result-cases (ok a) = inl (a, refl)
Result-cases (err e) = inr (e, refl)

-- What a call that looks a row up can return.
pub Lookup-cases {ℓ} :
    {A : Type ℓ} (r : Result (Option A))
    → ((a : A) × (r ≡ ok (some a))) ⊎ ((r ≡ ok none) ⊎ ((e : Thrown) × (r ≡ err e)))
Lookup-cases (ok (some a)) = inl (a, refl)
Lookup-cases (ok none) = inr (inl refl)
Lookup-cases (err e) = inr (inr (e, refl))

-- The counters that services/metrics.ts keeps, as the labels of each increment.
pub data Metric : Type 0 where
  jwt_operation : String → String → Metric
  auth_failure : String → String → Metric
  revocation_check : String → String → Metric
  oauth_operation : String → String → Metric

-- `db` is the state outside the process (database, Redis, GitHub). `clock n` is the n-th reading of
-- the clock and `random n` the n-th random text;
-- `key_cache` is the map of utils/encryption.ts from a salt in base64 to its key.
pub record World (S : Type 0) : Type 0 where
  pub db : S
  pub clock : ℕ → ℕ
  pub reads : ℕ
  pub random : ℕ → String
  pub drawn : ℕ
  pub metrics : List Metric
  pub key_cache : List (String × String)

abbrev pub Eff : Type 0 → Type 0 → Type 0
Eff S A = World S → Result A × World S

module _ {S A : Type 0} where
  abbrev pub pure : A → Eff S A
  pure a w = (ok a, w)

  abbrev pub throw : Thrown → Eff S A
  throw e w = (err e, w)

  abbrev pub lift : Result A → Eff S A
  lift r w = (r, w)

  -- A call that reads the outside state, and may fail.
  abbrev pub query : (S → Result A) → Eff S A
  query f w = (f w.db, w)

  -- A call that changes the outside state, and may fail.
  abbrev pub command : (S → Result A × S) → Eff S A
  command f w = let (r, s) = f w.db in (r, record w { db = s })

  -- `if (b) m else k`, applied to the world so that a stuck test leaves a choice of results.
  abbrev pub branch : Bool → Eff S A → Eff S A → Eff S A
  branch true m k w = m w
  branch false m k w = k w

  -- `try { m } catch (e) { h(e) }`
  abbrev pub try_catch : Eff S A → (Thrown → Eff S A) → Eff S A
  try_catch m h w = let (r, w') = m w in elim r [ ok a ↦ (ok a, w') | err e ↦ h e w' ]

module _ {S : Type 0} where
  -- `Date.now()`, `new Date()`
  abbrev pub now : Eff S ℕ
  now w = (ok (w.clock w.reads), record w { reads = suc w.reads })

  -- `randomUUID()`, `randomBytes(n).toString(…)`
  abbrev pub random_text : Eff S String
  random_text w = (ok (w.random w.drawn), record w { drawn = suc w.drawn })

  abbrev pub count_metric : Metric → Eff S (Unit {0})
  count_metric m w = (ok tt, record w { metrics = w.metrics ++ m ∷ [] })

infixl 5 ◌>>=◌ ◌>>◌
abbrev pub ◌>>=◌ : {S A B : Type 0} → Eff S A → (A → Eff S B) → Eff S B
◌>>=◌ m f w = let (r, w') = m w in elim r [ ok a ↦ f a w' | err e ↦ (err e, w') ]

abbrev pub ◌>>◌ : {S A B : Type 0} → Eff S A → Eff S B → Eff S B
m >> k = m >>= λ _. k
