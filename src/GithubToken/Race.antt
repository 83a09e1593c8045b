-- ===== src/GithubToken/Race.antt =====
-- Several requests that refresh the tokens of one user at once. The transaction of a refresh neither
-- locks the row that it reads nor runs alone, so reads, calls of GitHub and writes interleave. GitHub
-- takes each refresh token once and hands out another; tokens are numbers here, in order of issue.
use af_auth.Base.{
  ℕ, suc, ◌<◌, ◌≡◌, ◌≢◌, ◌⊎◌, inl, inr, Option, none, some, arith, ◌==◌, if◌then◌else◌, Bool-cases,
}
use af_auth.Base.Steps.{Reach, here, next}

-- Where a request stands: before its read, with the token that it read, with the new token that it
-- has to store, at the end of a transaction that failed with the new token in hand, or at another
-- end.
pub data Phase : Type 0 where
  waiting : Phase
  holding : ℕ → Phase
  renewed : ℕ → Phase
  lost : ℕ → Phase
  finished : Phase

-- The token that the request has from GitHub.
abbrev pub received : Phase → Option ℕ
received waiting = none
received (holding n) = none
received (renewed n) = some n
received (lost n) = some n
received finished = none

-- The stored token, the one that GitHub takes, the next one that it hands out, and the requests.
pub record Race : Type 0 where
  pub stored : ℕ
  pub live : ℕ
  pub fresh : ℕ
  pub phase : ℕ → Phase

abbrev pub moved : (ℕ → Phase) → ℕ → Phase → ℕ → Phase
moved phase i p j = if j == i then p else phase j

pub data Step : Race → Race → Type 0 where
  read :
      (r : Race) (i : ℕ)
      → r.phase i ≡ waiting
      → Step r (record r { phase = moved r.phase i (holding r.stored) })
  -- The read token is not expiring any more, or decrypting it fails.
  leave :
      (r : Race) (i n : ℕ)
      → r.phase i ≡ holding n
      → Step r (record r { phase = moved r.phase i finished })
  exchange :
      (r : Race) (i : ℕ)
      → r.phase i ≡ holding r.live
      → Step r (record r {
        live = r.fresh;
        fresh = suc r.fresh;
        phase = moved r.phase i (renewed r.fresh);
      })
  refuse :
      (r : Race) (i n : ℕ)
      → r.phase i ≡ holding n
      → n ≢ r.live
      → Step r (record r { phase = moved r.phase i finished })
  write :
      (r : Race) (i n : ℕ)
      → r.phase i ≡ renewed n
      → Step r (record r { stored = n; phase = moved r.phase i finished })
  -- An encryption or the write fails.
  lose :
      (r : Race) (i n : ℕ)
      → r.phase i ≡ renewed n
      → Step r (record r { phase = moved r.phase i (lost n) })

-- The live token is stored, or the one request that received it has it.
record IsKept (r : Race) : Type 0 where
  pub old : (j m : ℕ) → r.phase j ≡ holding m → m < r.fresh
  pub stored_old : r.stored < r.fresh
  pub live_old : r.live < r.fresh
  pub has_live : (i n : ℕ) → received (r.phase i) ≡ some n → n ≡ r.live
  pub alone : (i j n m : ℕ) → received (r.phase i) ≡ some n → received (r.phase j) ≡ some m → i ≡ j
  pub no_holder : (i j n m : ℕ) → received (r.phase i) ≡ some n → r.phase j ≡ holding m → m ≢ r.live
  pub not_stored : (i n : ℕ) → received (r.phase i) ≡ some n → r.stored ≢ r.live
  pub holder_reads : (j : ℕ) → r.phase j ≡ holding r.live → r.stored ≡ r.live
  pub kept : (r.stored ≡ r.live) ⊎ ((i : ℕ) × (received (r.phase i) ≡ some r.live))

renewed-received : {p : Phase} {n : ℕ} → p ≡ renewed n → received p ≡ some n
renewed-received e = rw e

leaves-IsKept :
    (r : Race) (i n : ℕ)
    → r.phase i ≡ holding n
    → IsKept r
    → IsKept (record r { phase = moved r.phase i finished })
leaves-IsKept r i n e h = record {
  old = λ j m p. ground (arith, h.old j m);
  stored_old = h.stored_old;
  live_old = h.live_old;
  has_live = λ j k p. ground (arith, h.has_live j k);
  alone = λ j k a b p q. ground (arith, h.alone j k a b);
  no_holder = λ j k a b p q same. ground (arith, h.no_holder j k a b);
  not_stored = λ j k p. ground (arith, h.not_stored j k);
  holder_reads = λ j p. ground (arith, h.holder_reads j);
  kept = elim h.kept [
    | inl same ↦ inl same
    | inr (j, q) ↦ inr (j, ground (arith, Bool-cases (j == i)))
  ];
}

Step-IsKept : {r r' : Race} → Step r r' → IsKept r → IsKept r'
Step-IsKept (read r i e) h = record {
  old = λ j m p. ground (arith, h.old j m, h.stored_old);
  stored_old = h.stored_old;
  live_old = h.live_old;
  has_live = λ j n p. ground (arith, h.has_live j n);
  alone = λ j k n m p q. ground (arith, h.alone j k n m);
  no_holder = λ j k n m p q same. ground (arith, h.no_holder j k n m, h.not_stored j n);
  not_stored = λ j n p. ground (arith, h.not_stored j n);
  holder_reads = λ j p. ground (arith, h.holder_reads j);
  kept = elim h.kept [
    | inl same ↦ inl same
    | inr (j, q) ↦ inr (j, ground (arith, Bool-cases (j == i)))
  ];
}
Step-IsKept (leave r i n e) h = leaves-IsKept r i n e h
Step-IsKept (exchange r i e) h = record {
  old = λ j m p. ground (arith, h.old j m);
  stored_old = ground (arith, h.stored_old);
  live_old = ground arith;
  has_live = λ j n p. ground (arith, h.has_live j n, h.no_holder j i n r.live);
  alone = λ j k n m p q. ground (arith, h.no_holder j i n r.live, h.no_holder k i m r.live);
  no_holder = λ j k n m p q same. ground (arith, h.old k m);
  not_stored = λ j n p same. ground (arith, h.stored_old);
  holder_reads = λ j p. ground (arith, h.old j r.fresh);
  kept = inr (i, ground arith);
}
Step-IsKept (refuse r i n e f) h = leaves-IsKept r i n e h
Step-IsKept (write r i n e) h = record {
  old = λ j m p. ground (arith, h.old j m);
  stored_old = ground (arith, h.has_live i n (renewed-received e), h.live_old);
  live_old = h.live_old;
  has_live = λ j k p. ground (arith, h.has_live j k);
  alone = λ j k a b p q. ground (arith, h.alone j k a b);
  no_holder = λ j k a b p q same. ground (arith, h.no_holder j k a b);
  not_stored = λ j k p. ground (arith, h.alone i j n k (renewed-received e));
  holder_reads = λ j p. h.has_live i n (renewed-received e);
  kept = inl (h.has_live i n (renewed-received e));
}
Step-IsKept (lose r i n e) h = record {
  old = λ j m p. ground (arith, h.old j m);
  stored_old = h.stored_old;
  live_old = h.live_old;
  has_live = λ j k p. ground (arith, h.has_live j k, h.has_live i n (renewed-received e));
  alone = λ j k a b p q. ground (arith, h.alone j k a b, h.alone i k n b, h.alone j i a n);
  no_holder = λ j k a b p q same. ground (arith, h.no_holder j k a b, h.no_holder i k n b);
  not_stored = λ j k p. ground (arith, h.not_stored j k, h.not_stored i n);
  holder_reads = λ j p. ground (arith, h.holder_reads j);
  kept = elim h.kept [
    | inl same ↦ inl same
    | inr (j, q) ↦ inr (j, ground (arith, Bool-cases (j == i)))
  ];
}

Reach-IsKept : {r r' : Race} → Reach Step r r' → IsKept r → IsKept r'
Reach-IsKept here h = h
Reach-IsKept (next before step) h = Step-IsKept step (Reach-IsKept before h)

settled-IsKept :
    (r : Race) → r.stored ≡ r.live → r.live < r.fresh → ((i : ℕ) → r.phase i ≡ waiting) → IsKept r
settled-IsKept r same old idle = record {
  old = λ j m p. ground (arith, idle j);
  stored_old = ground arith;
  live_old = old;
  has_live = λ i n p. ground (arith, idle i);
  alone = λ i j n m p q. ground (arith, idle i);
  no_holder = λ i j n m p q. ground (arith, idle j);
  not_stored = λ i n p. ground (arith, idle i);
  holder_reads = λ j p. same;
  kept = inl same;
}

-- From a race where the token that GitHub takes is stored and no request has begun, after any
-- interleaving of the reads, calls, refusals, writes and failed writes of any number of requests:
-- the token that GitHub takes is the stored one, or one request has it, which has not stored it yet
-- or whose transaction failed, and no other request has a token that is not stored.
pub live_kept :
    (r r' : Race)
    → r.stored ≡ r.live
    → r.live < r.fresh
    → ((i : ℕ) → r.phase i ≡ waiting)
    → Reach Step r r'
    → (r'.stored ≡ r'.live)
      ⊎ ((i : ℕ) × (received (r'.phase i) ≡ some r'.live)
          × ((j n : ℕ) → received (r'.phase j) ≡ some n → i ≡ j))
live_kept r r' same old idle path =
    let h = Reach-IsKept path (settled-IsKept r same old idle) in
    elim h.kept [
      | inl stays ↦ inl stays
      | inr (i, has) ↦ inr (i, has, λ j n p. h.alone i j r'.live n has p)
    ]
