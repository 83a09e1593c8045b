-- ===== src/RedisClient.antt =====
-- src/services/redis-client.ts: the one client of Redis, its creation, its end, and what its events
-- tell the metrics. ioredis is a parameter: its clients live in a state `P` and are known by numbers.
-- Logging only prints.
pub mod Retries
pub mod Single
use af_auth.Base.{
  ℕ, suc, ◌*◌, ◌-◌, String, Bool, true, false, Option, none, some, List, [], ◌∷◌, ◌===◌, ◌||◌,
  is_some, or_null, if◌then◌else◌,
}
use af_auth.Base.Int.{ℤ, pos, negsuc, ltb_ℤ, leb_ℤ}
use af_auth.Base.Eff.{Result, ok, err, Thrown}
use af_auth.Config.Settings.{RedisSettings}
use af_auth.Metrics.Registry.{Call, update_redis_connection_status}

-- `times * delay`
abbrev pub times_ℤ : ℕ → ℤ → ℤ
times_ℤ n (pos d) = pos (n * d)
times_ℤ ℕ.zero (negsuc d) = pos 0
times_ℤ (ℕ.suc n) (negsuc d) = negsuc (suc n * suc d - 1)

abbrev pub min_ℤ : ℤ → ℤ → ℤ
min_ℤ a b = if leb_ℤ a b then a else b

-- `retryStrategy`: the delay before the next attempt, or none to stop.
unfoldable pub retry_strategy : RedisSettings → ℕ → Option ℤ
retry_strategy settings times =
    if ltb_ℤ settings.max_retries (pos times)
    then none
    else some (min_ℤ (times_ℤ times settings.retry_delay) (pos 3000))

-- `RedisOptions`; the strategy is `retry_strategy`.
pub record RedisOptions : Type 0 where
  pub host : String
  pub port : ℤ
  pub password : Option String
  pub db : ℤ
  pub connect_timeout : ℤ
  pub max_retries_per_request : ℤ
  pub retry : ℕ → Option ℤ
  pub enable_offline_queue : Bool
  pub lazy_connect : Bool

abbrev pub redis_options : RedisSettings → RedisOptions
redis_options settings = record {
  host = settings.host;
  port = settings.port;
  password = or_null settings.password;
  db = settings.db;
  connect_timeout = settings.connect_timeout;
  max_retries_per_request = settings.max_retries_per_request;
  retry = retry_strategy settings;
  enable_offline_queue = false;
  lazy_connect = false;
}

pub record Ioredis (P : Type 0) : Type 0 where
  pub new_redis : RedisOptions → P → Result ℕ × P
  pub status : ℕ → P → String
  pub quit : ℕ → P → Result (Unit {0}) × P
  pub force_disconnect : ℕ → P → P

-- The variable of the module.
pub record RedisClient (P : Type 0) : Type 0 where
  pub outside : P
  pub redis_client : Option ℕ

-- The events of a client that the module listens to.
pub data Event : Type 0 where
  connected ready errored closed reconnecting ended : Event

-- What the listener of an event calls.
abbrev pub on_event : Event → Option Call
on_event connected = none
on_event ready = some (update_redis_connection_status true)
on_event errored = some (update_redis_connection_status false)
on_event closed = some (update_redis_connection_status false)
on_event reconnecting = some (update_redis_connection_status false)
on_event ended = some (update_redis_connection_status false)

-- The uses of the module that may change its variable.
pub data Use : Type 0 where
  get disconnect : Use

module _ {P : Type 0} (redis : Ioredis P) (settings : RedisSettings) where
  abbrev pub create_client : RedisClient P → Result ℕ × RedisClient P
  create_client c =
      let (r, p) = redis.new_redis (redis_options settings) c.outside in
      elim r [
        | ok id ↦ (ok id, record { outside = p; redis_client = some id })
        | err e ↦ (err e, record c { outside = p })
      ]

  -- `getRedisClient`: both tests of the client return it, whatever its status is.
  unfoldable pub get_redis_client : RedisClient P → Result ℕ × RedisClient P
  get_redis_client c = elim c.redis_client [
    | none ↦ create_client c
    | some id ↦
        if redis.status id c.outside === "ready" || redis.status id c.outside === "connecting"
        then (ok id, c)
        else (ok id, c)
  ]

  -- `isRedisConnected`
  unfoldable pub is_redis_connected : RedisClient P → Bool
  is_redis_connected c = elim c.redis_client [
    | none ↦ false
    | some id ↦ redis.status id c.outside === "ready"
  ]

  -- `getRedisStatus`; the status of a client is never empty.
  unfoldable pub get_redis_status : RedisClient P → String
  get_redis_status c = elim c.redis_client [
    | none ↦ "disconnected"
    | some id ↦ redis.status id c.outside
  ]

  abbrev pub quit_client : ℕ → P → P
  quit_client id p =
      let (r, p') = redis.quit id p in elim r [ ok u ↦ p' | err e ↦ redis.force_disconnect id p' ]

  -- `disconnectRedis`
  unfoldable pub disconnect_redis : RedisClient P → RedisClient P
  disconnect_redis c = elim c.redis_client [
    | none ↦ c
    | some id ↦ record { outside = quit_client id c.outside; redis_client = none }
  ]

  unfoldable pub use_client : Use → RedisClient P → RedisClient P
  use_client get c = (get_redis_client c).1
  use_client disconnect c = disconnect_redis c

  unfoldable pub uses : List Use → RedisClient P → RedisClient P
  uses [] c = c
  uses (u ∷ us) c = uses us (use_client u c)
