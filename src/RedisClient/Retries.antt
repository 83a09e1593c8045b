-- ===== src/RedisClient/Retries.antt =====
-- When the client gives up, and how long it waits.
use af_auth.Base.{
  ℕ, ◌*◌, ◌≤◌, ◌<◌, ◌≡◌, refl, none, some, arith, Bool-cases, ltb, leb, ◌⊎◌, inl, inr,
}
use af_auth.Base.Int.{pos}
use af_auth.Config.Settings.{RedisSettings}
use af_auth.RedisClient.{retry_strategy}

-- With settings that are not negative, the client stops exactly after `max_retries` attempts, and
-- before each of them it waits `times * retry_delay` milliseconds, or 3000 if that is less.
pub retry_strategy_bounds :
    (settings : RedisSettings) (times retries delay : ℕ)
    → settings.max_retries ≡ pos retries
    → settings.retry_delay ≡ pos delay
    → ((retries < times) × (retry_strategy settings times ≡ none))
      ⊎ ((times ≤ retries)
          × ((d : ℕ) × (retry_strategy settings times ≡ some (pos d))
              × (d ≤ 3000)
              × (d ≤ times * delay)
              × ((d ≡ 3000) ⊎ (d ≡ times * delay))))
unfolding retry_strategy
retry_strategy_bounds settings times retries delay e f = elim (Bool-cases (ltb retries times)) [
  | inl over ↦ inl (ground arith, ground arith)
  | inr more ↦ elim (Bool-cases (leb (times * delay) 3000)) [
    | inl short ↦
        inr (ground arith, (times * delay, ground arith, ground arith, omega arith, inr refl))
    | inr long ↦ inr (ground arith, (3000, ground arith, omega arith, ground arith, inl refl))
  ]
]
