-- ===== src/Tests/Races.antt =====
-- The theorem on concurrent refreshes, at two requests of which one is refused.
use af_auth.Base.{ℕ, ◌≡◌, ◌⊎◌, refl, some, arith, ◌==◌, if◌then◌else◌}
use af_auth.Base.Steps.{Reach, here, next}
use af_auth.GithubToken.Race.{
  waiting, holding, renewed, finished, received, Race, Step, read, exchange, refuse, live_kept,
}

abbrev idle : Race
idle = record { stored = 0; live = 0; fresh = 1; phase = λ i. waiting }

abbrev one_read : Race
one_read = record idle { phase = λ j. if j == 0 then holding 0 else waiting }

abbrev both_read : Race
both_read = record idle { phase = λ j. if j == 1 then holding 0 else one_read.phase j }

abbrev exchanged : Race
exchanged = record {
  stored = 0;
  live = 1;
  fresh = 2;
  phase = λ j. if j == 0 then renewed 1 else both_read.phase j;
}

abbrev one_refused : Race
one_refused = record exchanged { phase = λ j. if j == 1 then finished else exchanged.phase j }

race_run : Reach Step idle one_refused
race_run =
    next
      (next (next (next here (read idle 0 refl)) (read one_read 1 refl))
        (exchange both_read 0 refl))
      (refuse exchanged 1 0 refl (ground arith))

live_kept_example :
    (one_refused.stored ≡ one_refused.live)
    ⊎ ((i : ℕ) × (received (one_refused.phase i) ≡ some one_refused.live)
        × ((j n : ℕ) → received (one_refused.phase j) ≡ some n → i ≡ j))
live_kept_example = live_kept idle one_refused refl (ground arith) (λ i. refl) race_run
