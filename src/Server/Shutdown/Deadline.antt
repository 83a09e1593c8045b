-- ===== src/Server/Shutdown/Deadline.antt =====
-- The program ends in time.
use af_auth.Base.{ℕ, ◌+◌, ◌≤◌, ◌<◌, ◌==◌, ◌≡◌, ◌⊎◌, inl, inr, none, arith, Bool-cases, ltb}
use af_auth.Base.Steps.{Reach, here, next}
use af_auth.Server.Shutdown.{
  unsent, Process, shutdown_timeout, called, timed_out, waited, Step, call, close, disconnect,
  timeout, wait,
}

-- The call `i` was made at `t` and before all others, and its timer has not been passed.
pub record IsTimed (i t : ℕ) (p : Process) : Type 0 where
  pub made : p.stage i ≡ unsent → ⊥
  pub at : p.called_at i ≡ t
  pub first : (j : ℕ) → (p.stage j ≡ unsent → ⊥) → t ≤ p.called_at j
  pub before : t ≤ p.now
  pub soon : p.now ≤ t + shutdown_timeout

Step-IsTimed : {i t : ℕ} {p q : Process} → Step p q → IsTimed i t p → IsTimed i t q
Step-IsTimed {i} {t} (call p j e f) h = record {
  made = λ u. ground (arith, h.made);
  at = ground (arith, h.at, h.made);
  first = λ k m. elim (Bool-cases (k == j)) [
    | inl same ↦ ground (arith, h.before)
    | inr other ↦ ground (arith, h.first k)
  ];
  before = h.before;
  soon = h.soon;
}
Step-IsTimed {i} {t} (close p j failed e f) h = record {
  made = λ u. ground (arith, h.made);
  at = h.at;
  first = λ k m.
      h.first k (λ u. elim (Bool-cases (k == j)) [
        | inl same ↦ ground arith
        | inr other ↦ m (ground arith)
      ]);
  before = h.before;
  soon = h.soon;
}
Step-IsTimed {i} {t} (disconnect p j failed r e f) h = record {
  made = h.made;
  at = h.at;
  first = h.first;
  before = h.before;
  soon = h.soon;
}
Step-IsTimed {i} {t} (timeout p j e m due) h = record {
  made = h.made;
  at = h.at;
  first = h.first;
  before = h.before;
  soon = h.soon;
}
Step-IsTimed {i} {t} (wait p e early) h = record {
  made = h.made;
  at = h.at;
  first = h.first;
  before = omega (arith, h.before);
  soon = ground (arith, early i h.made, h.at);
}

Reach-IsTimed : {i t : ℕ} {p q : Process} → Reach Step p q → IsTimed i t p → IsTimed i t q
Reach-IsTimed here h = h
Reach-IsTimed (next reach step) h = Step-IsTimed step (Reach-IsTimed reach h)

-- Once `shutdown` was called, however its waits, further calls of it and the timers interleave: a
-- program that has not exited is at most ten seconds past the first call. Before that, time can go
-- on; when they have passed, the timer ends the program with code 1.
pub shutdown_ends :
    (p q : Process) (i : ℕ)
    → ((j : ℕ) → p.stage j ≡ unsent)
    → Reach Step (called p i) q
    → q.exited ≡ none
    → ((q.now < p.now + shutdown_timeout) × Step q (waited q))
      ⊎ ((q.now ≡ p.now + shutdown_timeout) × Step q (timed_out q))
shutdown_ends p q i fresh reach e =
    let begun : IsTimed i p.now (called p i) = record {
      made = λ u. ground arith;
      at = ground arith;
      first = λ j m. elim (Bool-cases (j == i)) [
        | inl same ↦ ground arith
        | inr other ↦ absurd (m (ground (arith, fresh j)))
      ];
      before = omega arith;
      soon = omega arith;
    } in
    let h = Reach-IsTimed reach begun in
    elim (Bool-cases (ltb q.now (p.now + shutdown_timeout))) [
      | inl early ↦ inl (ground arith, wait q e (λ j m. ground (arith, h.first j m)))
      | inr due ↦ inr (ground (arith, h.soon), timeout q i e h.made (ground (arith, h.at, h.soon)))
    ]
