-- ===== src/Server/Shutdown.antt =====
-- src/server.ts, `shutdown`: what runs when a signal, an uncaught exception or an unhandled rejection
-- comes. Each of them calls it anew. node closes the server and says whether that failed, runs the
-- timer when it is due, and ends at `process.exit`; when it does the first is left open.
pub mod Deadline
pub mod ExitCode
use af_auth.Base.{
  ℕ, suc, ◌+◌, ◌≤◌, ◌<◌, ◌==◌, ◌≡◌, Bool, true, false, Option, none, some, if◌then◌else◌,
}
use af_auth.Base.Eff.{Result, ok, err}

-- Where a call of `shutdown` stands: not made, waiting for the server to close, or for the database
-- after it, with whether closing failed.
pub data Stage : Type 0 where
  unsent : Stage
  closing : Stage
  disconnecting : Bool → Stage

-- The time, the calls by number with the time of each, and the exit code of the program if it ended.
pub record Process : Type 0 where
  pub now : ℕ
  pub stage : ℕ → Stage
  pub called_at : ℕ → ℕ
  pub exited : Option ℕ

abbrev pub changed : {A : Type 0} → (ℕ → A) → ℕ → A → ℕ → A
changed f i x j = if j == i then x else f j

-- The timer of a call, in milliseconds.
abbrev pub shutdown_timeout : ℕ
shutdown_timeout = 10000

abbrev pub called : Process → ℕ → Process
called p i = record p { stage = changed p.stage i closing; called_at = changed p.called_at i p.now }

-- The callback of `server.close`, up to the wait for the database.
abbrev pub server_closed : Process → ℕ → Bool → Process
server_closed p i failed = record p { stage = changed p.stage i (disconnecting failed) }

-- Its rest: `process.exit(err ? 1 : 0)`, and the `catch`.
abbrev pub exit_code : Bool → Result (Unit {0}) → ℕ
exit_code failed (ok u) = if failed then 1 else 0
exit_code failed (err e) = 1

abbrev pub disconnected : Process → Bool → Result (Unit {0}) → Process
disconnected p failed r = record p { exited = some (exit_code failed r) }

abbrev pub timed_out : Process → Process
timed_out p = record p { exited = some 1 }

abbrev pub waited : Process → Process
waited p = record p { now = suc p.now }

-- Time does not go past a timer that is due.
pub data Step : Process → Process → Type 0 where
  call : (p : Process) (i : ℕ) → p.exited ≡ none → p.stage i ≡ unsent → Step p (called p i)
  close :
      (p : Process) (i : ℕ) (failed : Bool)
      → p.exited ≡ none
      → p.stage i ≡ closing
      → Step p (server_closed p i failed)
  disconnect :
      (p : Process) (i : ℕ) (failed : Bool) (r : Result (Unit {0}))
      → p.exited ≡ none
      → p.stage i ≡ disconnecting failed
      → Step p (disconnected p failed r)
  timeout :
      (p : Process) (i : ℕ)
      → p.exited ≡ none
      → (p.stage i ≡ unsent → ⊥)
      → p.called_at i + shutdown_timeout ≤ p.now
      → Step p (timed_out p)
  wait :
      (p : Process)
      → p.exited ≡ none
      → ((i : ℕ) → (p.stage i ≡ unsent → ⊥) → p.now < p.called_at i + shutdown_timeout)
      → Step p (waited p)
