-- ===== src/Tests/Shutdown.antt =====
-- The theorems on the shutdown, at two signals a moment apart.
use af_auth.Base.{◌+◌, ◌<◌, ◌≡◌, ◌⊎◌, refl, false, none}
use af_auth.Base.Eff.{ok}
use af_auth.Base.Steps.{here, next}
use af_auth.Server.Shutdown.{
  unsent, Process, shutdown_timeout, called, server_closed, disconnected, timed_out, waited, Step,
  call, close, disconnect,
}
use af_auth.Server.Shutdown.Deadline.{shutdown_ends}
use af_auth.Server.Shutdown.ExitCode.{IsClean, exit_zero-IsClean}

abbrev serving : Process
serving = record { now = 7; stage = λ i. unsent; called_at = λ i. 0; exited = none }

abbrev second : Process
second = called (called serving 0) 1

shutdown_ends_example :
    ((second.now < 7 + shutdown_timeout) × Step second (waited second))
    ⊎ ((second.now ≡ 7 + shutdown_timeout) × Step second (timed_out second))
shutdown_ends_example =
    shutdown_ends serving second 0 (λ j. refl) (next here (call (called serving 0) 1 refl refl))
      refl

abbrev closed : Process
closed = server_closed second 0 false

exit_zero-IsClean_example : IsClean serving (disconnected closed false (ok tt))
exit_zero-IsClean_example =
    exit_zero-IsClean serving (disconnected closed false (ok tt)) (λ i. refl) refl
      (next
        (next (next (next here (call serving 0 refl refl)) (call (called serving 0) 1 refl refl))
          (close second 0 false refl refl))
        (disconnect closed 0 false (ok tt) refl refl))
      refl
