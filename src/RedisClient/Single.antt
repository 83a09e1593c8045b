-- ===== src/RedisClient/Single.antt =====
-- At most one connection is open.
use af_auth.Base.{ℕ, suc, ◌≡◌, ◌≤◌, if◌then◌else◌, is_some}
use af_auth.Base.Eff.{ok, err, Thrown}
use af_auth.Config.Settings.{RedisSettings}
use af_auth.RedisClient.{Ioredis, RedisClient, RedisOptions}

-- `count` says of each state of ioredis how many clients hold a connection or try for one: a new
-- client does, `quit` or `disconnect` ends that of an open client, and a failed `quit` leaves it.
pub record CountsOpen {P : Type 0} (redis : Ioredis P) (count : P → ℕ) : Type 0 where
  pub opened :
      (o : RedisOptions) (p : P) {id : ℕ}
      → (redis.new_redis o p).0 ≡ ok id
      → count (redis.new_redis o p).1 ≡ suc (count p)
  pub not_opened :
      (o : RedisOptions) (p : P) {e : Thrown}
      → (redis.new_redis o p).0 ≡ err e
      → count (redis.new_redis o p).1 ≡ count p
  pub quitted :
      (id : ℕ) (p : P)
      → (redis.quit id p).0 ≡ ok tt
      → 1 ≤ count p
      → suc (count (redis.quit id p).1) ≡ count p
  pub not_quitted :
      (id : ℕ) (p : P) {e : Thrown}
      → (redis.quit id p).0 ≡ err e
      → count (redis.quit id p).1 ≡ count p
  pub forced : (id : ℕ) (p : P) → 1 ≤ count p → suc (count (redis.force_disconnect id p)) ≡ count p

module _ {P : Type 0} (redis : Ioredis P) (settings : RedisSettings) (count : P → ℕ)
    (counts : CountsOpen redis count) where
  -- The connection is open exactly while the variable holds a client.
  abbrev pub IsSingle : RedisClient P → Type 0
  IsSingle c = (count c.outside ≡ (if is_some c.redis_client then 1 else 0))
