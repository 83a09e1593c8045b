-- ===== src/GithubToken/Refresh.antt =====
-- What happens to the token of a user when it is refreshed, or cannot be.
use af_auth.Base.{ℕ, ◌≡◌, some, arith, ◌⊎◌, inl, inr}
use af_auth.Base.Eff.{Result, ok, err, World, Result-cases, Thrown, Eff}
use af_auth.Env.{Env, User}
use af_auth.GithubOauth.{is_token_expiring_soon}
use af_auth.GithubToken.{Refreshed, transaction, refresh_in_transaction}

module _ {S : Type 0} (env : Env S) where
  -- What a transaction leaves in the database: what was committed, or, if it throws, what the
  -- database makes of the state before when it rolls back.
  pub transaction_lem :
      {A : Type 0} (body : Eff S A) (w : World S)
      → ((a : A) × ((body w).0 ≡ ok a)
          × ((env.commit (body w).1.db).0 ≡ ok tt)
          × ((transaction env body w).0 ≡ ok a)
          × ((transaction env body w).1.db ≡ (env.commit (body w).1.db).1))
        ⊎ ((e : Thrown) × (s : S) × ((transaction env body w).0 ≡ err e)
            × ((transaction env body w).1.db ≡ env.rollback w.db s))
  unfolding transaction
  transaction_lem body w = elim (Result-cases (body w).0) [
    | inl (a, e) ↦ elim (Result-cases (env.commit (body w).1.db).0) [
      | inl (u, f) ↦ inl (a, e, ground arith, ground arith, ground arith)
      | inr (x, f) ↦ inr (x, (env.commit (body w).1.db).1, ground arith, ground arith)
    ]
    | inr (x, e) ↦ inr (x, (body w).1.db, ground arith, ground arith)
  ]

  -- How the attempt to refresh inside the transaction ends, when the token expires at `t`.
  abbrev pub attempt : User → ℕ → World S → Result Refreshed × World S
  attempt user t w =
      refresh_in_transaction env user.id
        (is_token_expiring_soon (some t) env.config.token_refresh_threshold_seconds w).1
