-- ===== src/Tests/Retries.antt =====
-- The theorem on the connection with retries, with a database that comes up at the third attempt.
use af_auth.Base.{ℕ, suc, ◌≡◌, refl, true, false, [], ◌∷◌, ltb, if◌then◌else◌}
use af_auth.Base.Eff.{ok, err, error}
use af_auth.Database.{Client, DatabaseClient, connect, attempt_connection, connect_loop}
use af_auth.Database.Retries.{HasEnded, connect-HasEnded}

-- The outside counts the calls of `$connect`.
abbrev late : Client ℕ
late = record {
  client_connect = λ n. (ok tt, suc n);
  select_one = λ n. (if ltb n 3 then err (error "refused") else ok tt, n);
  client_disconnect = λ n. (ok tt, n);
}

abbrev fresh : DatabaseClient ℕ
fresh = record { outside = 0; is_connected = false; slept = [] }

third :
    connect late 5 1000 fresh
    ≡ (ok tt, record { outside = 3; is_connected = true; slept = 1000 ∷ 2000 ∷ [] })
unfolding connect connect_loop attempt_connection
third = refl

connect-HasEnded_example : HasEnded late 5 1000 fresh
connect-HasEnded_example = connect-HasEnded late 5 1000 fresh refl
