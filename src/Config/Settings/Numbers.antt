-- ===== src/Config/Settings/Numbers.antt =====
-- The numbers among the settings.
use af_auth.Base.{
  String, ◌≡◌, ◌⊎◌, inl, inr, subst, false, Option, some, List, [], ◌∷◌, arith, truthy, parse_int,
  Option-cases, Bool-cases, All, ◌++◌,
}
use af_auth.Base.Int.{ℤ, pos, negsuc}
use af_auth.Base.Eff.{Result, ok}
use af_auth.Config.Secrets.Loading.{and_then-elim, ok_lem}
use af_auth.Config.Settings.{
  DatabaseSettings, RedisSettings, Limits, Limit, RotationSettings, Settings,
  get_optional_numeric_env, in_range, load_threshold, load_redis, load_limit, load_limits,
  load_rotation,
}
use af_auth.Config.Settings.Load.{load_database, load_config}
use af_auth.Config.Settings.Parts.{load_config-Parts}

-- The variable is missing or empty and the setting has its default, or its text starts with the number.
abbrev pub IsRead : (String → Option String) → String → ℤ → ℤ → Type 0
IsRead env name default_value value =
    ((truthy (env name) ≡ false) × (value ≡ default_value))
    ⊎ ((text : String) × (env name ≡ some text) × (parse_int text ≡ some value))

-- A variable with a number: its name, its default, and the setting.
abbrev pub Number : Type 0
Number = String × ℤ × ℤ

abbrev pub IsNumber : (String → Option String) → Number → Type 0
IsNumber env (name, default_value, value) = IsRead env name default_value value

abbrev pub numbers_of_redis : RedisSettings → List Number
numbers_of_redis s =
    ("REDIS_PORT", pos 6379, s.port)
    ∷ ("REDIS_DB", pos 0, s.db)
    ∷ ("REDIS_CONNECT_TIMEOUT_MS", pos 5000, s.connect_timeout)
    ∷ ("REDIS_MAX_RETRIES", pos 3, s.max_retries)
    ∷ ("REDIS_RETRY_DELAY_MS", pos 1000, s.retry_delay)
    ∷ ("REDIS_MAX_RETRIES_PER_REQUEST", pos 3, s.max_retries_per_request)
    ∷ ("REDIS_STATE_TTL_SECONDS", pos 600, s.state_ttl_seconds)
    ∷ []

abbrev pub numbers_of_database : DatabaseSettings → List Number
numbers_of_database s =
    ("DB_POOL_MIN", pos 2, s.pool_min)
    ∷ ("DB_POOL_MAX", pos 10, s.pool_max)
    ∷ ("DB_CONNECTION_TIMEOUT_MS", pos 5000, s.connection_timeout)
    ∷ ("DB_MAX_RETRIES", pos 3, s.max_retries)
    ∷ ("DB_RETRY_DELAY_MS", pos 1000, s.retry_delay)
    ∷ []

abbrev pub numbers_of_rotation : RotationSettings → List Number
numbers_of_rotation s =
    ("JWT_KEY_ROTATION_INTERVAL_DAYS", pos 180, s.jwt_key)
    ∷ ("GITHUB_TOKEN_ENCRYPTION_KEY_ROTATION_INTERVAL_DAYS", pos 90, s.github_token_encryption_key)
    ∷ ("SERVICE_API_KEY_ROTATION_INTERVAL_DAYS", pos 365, s.service_api_key)
    ∷ []

abbrev pub numbers_of_limits : Limits → List Number
numbers_of_limits s =
    ("RATE_LIMIT_AUTH_WINDOW_MS", pos 900000, s.auth.window_ms)
    ∷ ("RATE_LIMIT_AUTH_MAX", pos 10, s.auth.max_requests)
    ∷ ("RATE_LIMIT_JWT_WINDOW_MS", pos 900000, s.jwt.window_ms)
    ∷ ("RATE_LIMIT_JWT_MAX", pos 100, s.jwt.max_requests)
    ∷ ("RATE_LIMIT_GITHUB_TOKEN_WINDOW_MS", pos 3600000, s.github_token.window_ms)
    ∷ ("RATE_LIMIT_GITHUB_TOKEN_MAX", pos 1000, s.github_token.max_requests)
    ∷ []

abbrev pub numbers : Settings → List Number
numbers c =
    ("PORT", pos 3000, c.port)
    ∷ ("SESSION_MAX_AGE_MS", pos 600000, c.session_max_age)
    ∷ ("JWT_CLOCK_TOLERANCE_SECONDS", pos 60, c.jwt_clock_tolerance)
    ∷ ("GITHUB_TOKEN_REFRESH_THRESHOLD_SECONDS", pos 3600, c.github.token_refresh_threshold_seconds)
    ∷ (numbers_of_database c.database
        ++ (numbers_of_redis c.redis
            ++ (numbers_of_limits c.rate_limit ++ numbers_of_rotation c.rotation)))

All-append : {A : Type 0} (P : A → Type 0) (l m : List A) → All P l → All P m → All P (l ++ m)
All-append P [] m h k = k
All-append P (x ∷ l) m (p, h) k = (p, All-append P l m h k)

in_range_same : (n : ℤ) {t : ℤ} → in_range n ≡ ok t → n ≡ t
in_range_same (pos n) h = ground arith
in_range_same (negsuc n) h = absurd (ground arith)

module _ (env : String → Option String) where
  numeric-IsRead :
      {name : String} {d value : ℤ}
      → get_optional_numeric_env env name d ≡ ok value
      → IsRead env name d value
  unfolding get_optional_numeric_env
  numeric-IsRead {name} {d} {value} h = elim (Option-cases (env name)) [
    | inl e ↦ inl (ground arith, ground arith)
    | inr (text, e) ↦ elim (Bool-cases (truthy (some text))) [
      | inl there ↦ elim (Option-cases (parse_int text)) [
        | inl none_read ↦ absurd (ground arith)
        | inr (n, read) ↦ inr (text, e, ground arith)
      ]
      | inr empty ↦ inl (ground arith, ground arith)
    ]
  ]

  threshold_number :
      {t : ℤ}
      → load_threshold env ≡ ok t
      → IsRead env "GITHUB_TOKEN_REFRESH_THRESHOLD_SECONDS" (pos 3600) t
  unfolding load_threshold
  threshold_number h = and_then-elim h λ n e h.
      let same = in_range_same n h in
      subst (λ n. IsRead env "GITHUB_TOKEN_REFRESH_THRESHOLD_SECONDS" (pos 3600) n) same
        (numeric-IsRead e)

  redis_numbers :
      (s : RedisSettings) → load_redis env ≡ ok s → All (IsNumber env) (numbers_of_redis s)
  unfolding load_redis
  redis_numbers s h = and_then-elim h λ x0 e0 h. and_then-elim h λ x1 e1 h.
      and_then-elim h λ x2 e2 h. and_then-elim h λ x3 e3 h. and_then-elim h λ x4 e4 h.
        and_then-elim h λ x5 e5 h. and_then-elim h λ x6 e6 h.
          subst (λ s. All (IsNumber env) (numbers_of_redis s)) (ok_lem h)
            (
              numeric-IsRead e0,
              (
                numeric-IsRead e1,
                (
                  numeric-IsRead e2,
                  (
                    numeric-IsRead e3,
                    (numeric-IsRead e4, (numeric-IsRead e5, (numeric-IsRead e6, tt))),
                  ),
                ),
              ),
            )

  database_numbers :
      (base64_decode : String → String) (require_ssl : String → Result String) (url : String)
      (s : DatabaseSettings)
      → load_database env base64_decode require_ssl url ≡ ok s
      → All (IsNumber env) (numbers_of_database s)
  unfolding load_database
  database_numbers base64_decode require_ssl url s h = and_then-elim h λ x0 e0 h.
      and_then-elim h λ x1 e1 h. and_then-elim h λ x2 e2 h. and_then-elim h λ x3 e3 h.
        and_then-elim h λ x4 e4 h.
          subst (λ s. All (IsNumber env) (numbers_of_database s)) (ok_lem h)
            (
              numeric-IsRead e0,
              (
                numeric-IsRead e1,
                (numeric-IsRead e2, (numeric-IsRead e3, (numeric-IsRead e4, tt))),
              ),
            )

  rotation_numbers :
      (s : RotationSettings) → load_rotation env ≡ ok s → All (IsNumber env) (numbers_of_rotation s)
  unfolding load_rotation
  rotation_numbers s h = and_then-elim h λ x0 e0 h. and_then-elim h λ x1 e1 h.
      and_then-elim h λ x2 e2 h.
        subst (λ s. All (IsNumber env) (numbers_of_rotation s)) (ok_lem h)
          (numeric-IsRead e0, (numeric-IsRead e1, (numeric-IsRead e2, tt)))

  limit_numbers :
      {window_name max_name : String} {d e : ℤ} (s : Limit)
      → load_limit env window_name max_name d e ≡ ok s
      → IsRead env window_name d s.window_ms × IsRead env max_name e s.max_requests
  unfolding load_limit
  limit_numbers {window_name} {max_name} {d} {e} s h = and_then-elim h λ x e0 h.
      and_then-elim h λ y e1 h.
        subst
          (λ (s : Limit).
            IsRead env window_name d s.window_ms × IsRead env max_name e s.max_requests)
          (ok_lem h) (numeric-IsRead e0, numeric-IsRead e1)

  limits_numbers : (s : Limits) → load_limits env ≡ ok s → All (IsNumber env) (numbers_of_limits s)
  unfolding load_limits
  limits_numbers s h = and_then-elim h λ a e0 h. and_then-elim h λ j e1 h. and_then-elim h λ g e2 h.
      let (aw, am) = limit_numbers a e0 in
      let (jw, jm) = limit_numbers j e1 in
      let (gw, gm) = limit_numbers g e2 in
      subst (λ s. All (IsNumber env) (numbers_of_limits s)) (ok_lem h)
        (aw, (am, (jw, (jm, (gw, (gm, tt))))))

  -- When the program has started, every number among the settings is the one that the text of its
  -- variable starts with, or its default if the variable is missing or empty. So a variable that is set
  -- to a text without a number keeps the program from starting.
  pub load_config-numbers :
      (base64_decode : String → String) (require_ssl : String → Result String) (c : Settings)
      → load_config env base64_decode require_ssl ≡ ok c
      → All (IsNumber env) (numbers c)
  load_config-numbers base64_decode require_ssl c h =
      let (
        port,
        secrets,
        (url, database),
        threshold,
        redis,
        secret,
        age,
        tolerance,
        limits,
        cookies,
        rotation,
      ) =
        load_config-Parts env base64_decode require_ssl h in
      let rest =
        All-append (IsNumber env) (numbers_of_redis c.redis)
          (numbers_of_limits c.rate_limit ++ numbers_of_rotation c.rotation)
          (redis_numbers c.redis redis)
          (All-append (IsNumber env) (numbers_of_limits c.rate_limit)
            (numbers_of_rotation c.rotation) (limits_numbers c.rate_limit limits)
            (rotation_numbers c.rotation rotation)) in
      (
        numeric-IsRead port,
        (
          numeric-IsRead age,
          (
            numeric-IsRead tolerance,
            (
              threshold_number threshold,
              All-append (IsNumber env) (numbers_of_database c.database)
                  (numbers_of_redis c.redis
                    ++ (numbers_of_limits c.rate_limit ++ numbers_of_rotation c.rotation))
                  (database_numbers base64_decode require_ssl url c.database database) rest,
            ),
          ),
        ),
      )
