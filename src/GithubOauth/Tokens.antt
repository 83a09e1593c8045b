-- ===== src/GithubOauth/Tokens.antt =====
-- The calls of GitHub, their counts, and the time of a token's expiry.
use af_auth.Base.{
  ℕ, ◌+◌, ◌*◌, ◌≤◌, String, ◌≡◌, ◌↔◌, refl, true, false, Option, none, some, List, [], ◌∷◌, ◌++◌,
  arith, ◌⊎◌, inl, inr, Bool-cases, truthy,
}
use af_auth.Base.Eff.{Result, ok, err, error, World, oauth_operation, Metric}
use af_auth.Env.{Env, TokenResponse}
use af_auth.GithubOauth.{
  exchange_code_for_token, check_response, oauth_failed, is_token_expiring_soon,
}

module _ {S : Type 0} (env : Env S) where
  abbrev counting : World S → S → List Metric → World S
  counting w s l = record w { db = s; metrics = l }

  abbrev failure : Metric
  failure = oauth_operation "token_exchange" "failure"

  abbrev exchange_error : Result TokenResponse
  exchange_error = err (error "Failed to exchange authorization code for token")

  -- What the exchange must make of GitHub's answer.
  abbrev pub Exchanges : String → World S → Result TokenResponse × S → Type 0
  Exchanges code w (ok r, s) =
      ((truthy r.access_token ≡ true)
        × (exchange_code_for_token env code w
            ≡ (ok r, counting w s (w.metrics ++ oauth_operation "token_exchange" "success" ∷ []))))
      ⊎ ((truthy r.access_token ≡ false)
          × (exchange_code_for_token env code w
              ≡ (exchange_error, counting w s ((w.metrics ++ failure ∷ []) ++ failure ∷ []))))
  Exchanges code w (err x, s) =
      exchange_code_for_token env code w
      ≡ (exchange_error, counting w s (w.metrics ++ failure ∷ []))

  exchanges :
      (code : String) (w : World S) (a : Result TokenResponse × S)
      → env.github_exchange code w.db ≡ a
      → Exchanges code w a
  unfolding exchange_code_for_token check_response oauth_failed
  exchanges code w (ok r, s) h = elim (Bool-cases (truthy r.access_token)) [
    | inl e ↦ inl (e, ground arith)
    | inr e ↦ inr (e, ground arith)
  ]
  exchanges code w (err x, s) h = ground arith

  -- The exchange of a code returns just what GitHub answered if that has an access token, and counts
  -- a success. Otherwise it throws one fixed message, whatever failed, and the failure is counted
  -- once if the call itself failed, and twice if the answer lacks an access token.
  pub exchange_code_for_token_lem :
      (code : String) (w : World S) → Exchanges code w (env.github_exchange code w.db)
  exchange_code_for_token_lem code w = exchanges code w (env.github_exchange code w.db) refl

  -- A token is soon to expire exactly when its expiry is known and at most the threshold away; a
  -- past expiry is included.
  pub is_token_expiring_soon_iff :
      (expires_at : Option ℕ) (threshold : ℕ) (w : World S)
      → ((is_token_expiring_soon expires_at threshold w).0 ≡ ok true)
        ↔ ((t : ℕ) × (expires_at ≡ some t) × (t ≤ w.clock w.reads + threshold * 1000))
  unfolding is_token_expiring_soon
  is_token_expiring_soon_iff none threshold w =
      ((λ h. absurd (ground arith)), λ (t, e, l). absurd (ground arith))
  is_token_expiring_soon_iff (some t) threshold w =
      ((λ h. (t, refl, ground arith)), λ (t', e, l). ground arith)
