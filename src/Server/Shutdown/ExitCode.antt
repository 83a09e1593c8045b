-- ===== src/Server/Shutdown/ExitCode.antt =====
-- What the exit code 0 means.
use af_auth.Base.{
  ℕ, ◌==◌, ◌≡◌, inl, inr, refl, sym, subst, Bool, true, false, none, some, arith, Bool-cases,
}
use af_auth.Base.Eff.{Result, ok, err}
use af_auth.Base.Steps.{Reach, here, next}
use af_auth.Server.Shutdown.{
  unsent, closing, disconnecting, Process, called, server_closed, disconnected, Step, call, close,
  disconnect, timeout, wait,
}

module _ (start : Process) where
  -- The server of call `i` closed without an error on the way to `q`.
  abbrev pub HasClosed : ℕ → Process → Type 0
  HasClosed i q =
      (a : Process) × Reach Step start a
      × (a.stage i ≡ closing)
      × Reach Step (server_closed a i false) q

  abbrev pub IsClean : Process → Type 0
  IsClean q =
      (i : ℕ) × (r : Process) × HasClosed i r
      × (r.stage i ≡ disconnecting false)
      × (q ≡ disconnected r false (ok tt))

  record IsTracked (q : Process) : Type 0 where
    pub reached : Reach Step start q
    pub closed : (i : ℕ) → q.stage i ≡ disconnecting false → HasClosed i q
    pub clean : q.exited ≡ some 0 → IsClean q

  later : {i : ℕ} {q r : Process} → HasClosed i q → Step q r → HasClosed i r
  later (a, reach, waiting, onward) step = (a, reach, waiting, next onward step)

  still :
      (p : Process) (i j : ℕ)
      → (called p j).stage i ≡ disconnecting false
      → p.stage j ≡ unsent
      → p.stage i ≡ disconnecting false
  still p i j c f = elim (Bool-cases (i == j)) [
    | inl same ↦ absurd (ground arith)
    | inr other ↦ ground arith
  ]

  ended :
      (p : Process) (i : ℕ)
      → IsTracked p
      → (failed : Bool) (r : Result (Unit {0})) → p.stage i ≡ disconnecting failed
      → (disconnected p failed r).exited ≡ some 0
      → IsClean (disconnected p failed r)
  ended p i h false (ok u) f x = (i, p, h.closed i f, f, refl)
  ended p i h true (ok u) f x = absurd (ground arith)
  ended p i h failed (err e) f x = absurd (ground arith)

  Step-IsTracked : {q r : Process} → Step q r → IsTracked q → IsTracked r
  Step-IsTracked (call p j e f) h = record {
    reached = next h.reached (call p j e f);
    closed = λ i c. later (h.closed i (still p i j c f)) (call p j e f);
    clean = λ x. absurd (ground arith);
  }
  Step-IsTracked (close p j failed e f) h = record {
    reached = next h.reached (close p j failed e f);
    closed = λ i c. elim (Bool-cases (i == j)) [
      | inl same ↦
          let i_is_j : i ≡ j = ground arith in
          let worked : false ≡ failed = ground arith in
          subst (λ k. HasClosed k (server_closed p j failed)) (sym i_is_j)
            (subst (λ b. HasClosed j (server_closed p j b)) worked (p, h.reached, f, here))
      | inr other ↦ later (h.closed i (ground arith)) (close p j failed e f)
    ];
    clean = λ x. absurd (ground arith);
  }
  Step-IsTracked (disconnect p j failed r e f) h = record {
    reached = next h.reached (disconnect p j failed r e f);
    closed = λ i c. later (h.closed i c) (disconnect p j failed r e f);
    clean = λ x. ended p j h failed r f x;
  }
  Step-IsTracked (timeout p j e m due) h = record {
    reached = next h.reached (timeout p j e m due);
    closed = λ i c. later (h.closed i c) (timeout p j e m due);
    clean = λ x. absurd (ground arith);
  }
  Step-IsTracked (wait p e early) h = record {
    reached = next h.reached (wait p e early);
    closed = λ i c. later (h.closed i c) (wait p e early);
    clean = λ x. absurd (ground arith);
  }

  Reach-IsTracked :
      {q : Process}
      → ((i : ℕ) → start.stage i ≡ unsent)
      → start.exited ≡ none
      → Reach Step start q
      → IsTracked q
  Reach-IsTracked fresh running here = record {
    reached = here;
    closed = λ i c. absurd (ground (arith, fresh i));
    clean = λ x. absurd (ground arith);
  }
  Reach-IsTracked fresh running (next reach step) =
      Step-IsTracked step (Reach-IsTracked fresh running reach)

  -- From a program in which `shutdown` was not called yet: it exits with code 0 only as the last step of
  -- some call of `shutdown` for which first the server closed without an error and then the database
  -- was disconnected without one.
  pub exit_zero-IsClean :
      (q : Process)
      → ((i : ℕ) → start.stage i ≡ unsent)
      → start.exited ≡ none
      → Reach Step start q
      → q.exited ≡ some 0
      → IsClean q
  exit_zero-IsClean q fresh running reach x = (Reach-IsTracked fresh running reach).clean x
