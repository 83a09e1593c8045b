-- ===== src/Tests/Redis.antt =====
-- The theorems on the client of Redis, with a client that counts its connections.
use af_auth.Base.{ℕ, suc, ◌-◌, none, List, [], ◌∷◌}
use af_auth.Base.Eff.{ok, err, error}
use af_auth.RedisClient.{RedisClient, Ioredis, Use, get, disconnect}

-- `quit` always fails.
abbrev client : Ioredis ℕ
client = record {
  new_redis = λ o n. (ok n, suc n);
  status = λ id n. "ready";
  quit = λ id n. (err (error "Connection is closed."), n);
  force_disconnect = λ id n. n - 1;
}

abbrev asked : List Use
asked = get ∷ get ∷ disconnect ∷ disconnect ∷ get ∷ []

-- A client that has just been made is not ready.
abbrev connecting : Ioredis ℕ
connecting = record client { status = λ id n. "connecting" }

abbrev unloaded : RedisClient ℕ
unloaded = record { outside = 0; redis_client = none }
