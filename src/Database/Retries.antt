-- ===== src/Database/Retries.antt =====
-- How the connection with retries ends.
use af_auth.Base.{
  ℕ, zero, suc, ◌*◌, ◌^◌, ◌<◌, ◌≡◌, refl, true, false, List, [], ◌∷◌, arith, ◌⊎◌, inl, inr,
}
use af_auth.Base.Eff.{Result, ok, err, error, Thrown, Result-cases}
use af_auth.Database.{
  Client, DatabaseClient, attempt_connection, connect_loop, connect, given_up, get_backoff_delay,
  delay_unless_last,
}

-- `n` delays from that of attempt `a` on: each is twice the one before.
abbrev pub backoffs : ℕ → ℕ → ℕ → List ℕ
backoffs zero a base = []
backoffs (suc n) a base = base * 2 ^ a ∷ backoffs n (suc a) base

abbrev pub one_less : ℕ → ℕ
one_less zero = 0
one_less (suc n) = n

module _ {S : Type 0} (client : Client S) where
  -- The outside after `n` attempts.
  abbrev pub after : ℕ → S → S
  after zero s = s
  after (suc n) s = after n (attempt_connection client s).1

  abbrev pub AllFail : ℕ → S → Type 0
  AllFail zero s = Unit
  AllFail (suc n) s =
      ((e : Thrown) × ((attempt_connection client s).0 ≡ err e))
      × AllFail n (attempt_connection client s).1

  delay_lem :
      (n a base : ℕ) (l : List ℕ)
      → 0 < n
      → delay_unless_last client n a base l ≡ get_backoff_delay a base ∷ l
  delay_lem zero a base l p = absurd (omega (arith, p))
  delay_lem (suc n) a base l p = refl

  last_lem :
      (n a base : ℕ)
      → delay_unless_last client n a base (backoffs (one_less n) (suc a) base) ≡ backoffs n a base
  last_lem zero a base = refl
  last_lem (suc n) a base = refl

  -- The loop succeeds at the attempt after `k` failures, or all of them fail.
  abbrev Ends : ℕ → ℕ → ℕ → S → Result (Unit {0}) × (S × List ℕ) → Type 0
  Ends n a base s r =
      ((k : ℕ) × (k < n)
        × AllFail k s
        × ((attempt_connection client (after k s)).0 ≡ ok tt)
        × (r ≡ (ok tt, (after (suc k) s, backoffs k a base))))
      ⊎ (AllFail n s × ((e : Thrown) × (r ≡ (err e, (after n s, backoffs (one_less n) a base)))))

  loop_lem :
      (n a base : ℕ) (last : Thrown) (s : S) → Ends n a base s (connect_loop client n a base last s)
  unfolding connect_loop
  loop_lem zero a base last s = inr (tt, (last, refl))
  loop_lem (suc n) a base last s = elim (Result-cases (attempt_connection client s).0) [
    | inl (u, e) ↦ inl (0, omega arith, tt, e, rw (connect_loop, e) refl)
    | inr (x, e) ↦ elim (loop_lem n (suc a) base x (attempt_connection client s).1) [
      | inl (k, l, failed, good, r) ↦ inl (
        suc k,
        omega (arith, l),
        ((x, e), failed),
        good,
        rw (connect_loop, e, r, delay_lem n a base (backoffs k (suc a) base) (omega (arith, l)))
            refl,
      )
      | inr (failed, (y, r)) ↦
          inr (((x, e), failed), (y, rw (connect_loop, e, r, last_lem n a base) refl))
    ]
  ]

  -- How connecting ends, with the number of attempts and the base delay that are configured.
  abbrev pub HasEnded : ℕ → ℕ → DatabaseClient S → Type 0
  HasEnded max_retries retry_delay c =
      ((k : ℕ) × (k < max_retries)
        × AllFail k c.outside
        × ((attempt_connection client (after k c.outside)).0 ≡ ok tt)
        × (connect client max_retries retry_delay c ≡ (
          ok tt,
          record {
            outside = after (suc k) c.outside;
            is_connected = true;
            slept = backoffs k 0 retry_delay;
          },
        )))
      ⊎ (AllFail max_retries c.outside
          × ((e : Thrown) × (connect client max_retries retry_delay c ≡ (
            given_up client max_retries (err e),
            record {
              outside = after max_retries c.outside;
              is_connected = false;
              slept = backoffs (one_less max_retries) 0 retry_delay;
            },
          ))))

  -- Of a client that is not connected, either some attempt, of which there are at most the
  -- configured number, succeeds after all before it failed: the client is connected then, and the
  -- sleeps were the base delay, doubled after each further failure. Or all attempts fail: there was
  -- such a sleep between any two of them, the client is not connected, and an error that names the
  -- number of attempts is thrown.
  pub connect-HasEnded :
      (max_retries retry_delay : ℕ) (c : DatabaseClient S)
      → c.is_connected ≡ false
      → HasEnded max_retries retry_delay c
  unfolding connect
  connect-HasEnded max_retries retry_delay c off =
      elim (loop_lem max_retries 0 retry_delay (error "undefined") c.outside) [
        | inl (k, l, failed, good, r) ↦ inl (k, l, failed, good, rw (off, r) refl)
        | inr (failed, (e, r)) ↦ inr (failed, (e, rw (off, r) refl))
      ]
