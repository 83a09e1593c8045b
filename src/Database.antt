-- ===== src/Database.antt =====
-- src/db/index.ts: the connection to the database, with retries after growing delays. Prisma's client
-- is a parameter. Logging only prints.
pub mod Retries
use af_auth.Base.{
  ℕ, zero, suc, ◌+◌, ◌*◌, ◌^◌, String, Bool, true, false, List, [], ◌∷◌, ◌+++◌, if◌then◌else◌, show,
  ltb,
}
use af_auth.Base.Eff.{Result, ok, err, error, Thrown, message}

-- `$connect`, the query `SELECT 1`, and `$disconnect`.
pub record Client (S : Type 0) : Type 0 where
  pub client_connect : S → Result (Unit {0}) × S
  pub select_one : S → Result (Unit {0}) × S
  pub client_disconnect : S → Result (Unit {0}) × S

-- `DatabaseClient`: the outside, the flag, and how long the sleeps of the last `connect` took.
pub record DatabaseClient (S : Type 0) : Type 0 where
  pub outside : S
  pub is_connected : Bool
  pub slept : List ℕ

-- `getBackoffDelay`
abbrev pub get_backoff_delay : ℕ → ℕ → ℕ
get_backoff_delay attempt base_delay = base_delay * 2 ^ attempt

module _ {S : Type 0} (client : Client S) where
  abbrev verify_connection : Result (Unit {0}) × S → Result (Unit {0}) × S
  verify_connection (ok u, s) = client.select_one s
  verify_connection (err e, s) = (err e, s)

  -- The body of the `try`: what one attempt does.
  unfoldable pub attempt_connection : S → Result (Unit {0}) × S
  attempt_connection s = verify_connection (client.client_connect s)

  -- The delays before the next attempt; none after the last one.
  abbrev pub delay_unless_last : ℕ → ℕ → ℕ → List ℕ → List ℕ
  delay_unless_last zero attempt base_delay later = later
  delay_unless_last (suc n) attempt base_delay later = get_backoff_delay attempt base_delay ∷ later

  -- The loop, with the number of attempts that are left: its result, the outside, and the delays.
  unfoldable pub connect_loop : ℕ → ℕ → ℕ → Thrown → S → Result (Unit {0}) × (S × List ℕ)
  connect_loop zero attempt base_delay last s = (err last, (s, []))
  connect_loop (suc left) attempt base_delay last s =
      let (r, s') = attempt_connection s in
      elim r [
        | ok u ↦ (ok tt, (s', []))
        | err e ↦
            let rest = connect_loop left (suc attempt) base_delay e s' in
            (rest.0, (rest.1.0, delay_unless_last left attempt base_delay rest.1.1))
      ]

  abbrev pub is_ok : Result (Unit {0}) → Bool
  is_ok (ok u) = true
  is_ok (err e) = false

  -- What is thrown in the end.
  abbrev pub given_up : ℕ → Result (Unit {0}) → Result (Unit {0})
  given_up max_retries (ok u) = ok tt
  given_up max_retries (err e) = err (
      error (
        "Failed to connect to database after "
        +++ show max_retries
        +++ " attempts: "
        +++ message e))

  unfoldable pub connect : ℕ → ℕ → DatabaseClient S → Result (Unit {0}) × DatabaseClient S
  connect max_retries retry_delay c =
      let end = connect_loop max_retries 0 retry_delay (error "undefined") c.outside in
      if c.is_connected then (ok tt, c) else (
        given_up max_retries end.0,
        record { outside = end.1.0; is_connected = is_ok end.0; slept = end.1.1 },
      )

  unfoldable pub disconnect : DatabaseClient S → Result (Unit {0}) × DatabaseClient S
  disconnect c =
      if c.is_connected
      then (let (r, s) = client.client_disconnect c.outside in
          elim r [
            | ok u ↦ (ok tt, record c { outside = s; is_connected = false })
            | err e ↦ (err e, record c { outside = s })
          ])
      else (ok tt, c)

  -- `healthCheck`
  unfoldable pub health_check : S → Bool × S
  health_check s = let (r, s') = client.select_one s in (is_ok r, s')
