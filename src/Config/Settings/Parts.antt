-- ===== src/Config/Settings/Parts.antt =====
-- The parts of the settings when the program has started.
use af_auth.Base.{String, ◌≡◌, subst, Option}
use af_auth.Base.Int.{pos}
use af_auth.Base.Eff.{Result, ok}
use af_auth.Config.Secrets.{get_required_env, load_secrets}
use af_auth.Config.Secrets.Loading.{and_then-elim, ok_lem}
use af_auth.Config.Settings.{
  GithubSettings, Settings, get_optional_numeric_env, load_threshold, load_cookies, load_redis,
  load_limits, load_rotation,
}
use af_auth.Config.Settings.Load.{load_database, load_github, load_config}

module _ (env : String → Option String) (base64_decode : String → String)
    (require_ssl : String → Result String) where
  abbrev pub Parts : Settings → Type 0
  Parts c =
      (get_optional_numeric_env env "PORT" (pos 3000) ≡ ok c.port)
      × (load_secrets env base64_decode ≡ ok c.secrets)
      × ((url : String) × (load_database env base64_decode require_ssl url ≡ ok c.database))
      × (load_threshold env ≡ ok c.github.token_refresh_threshold_seconds)
      × (load_redis env ≡ ok c.redis)
      × (get_required_env env "SESSION_SECRET" ≡ ok c.session_secret)
      × (get_optional_numeric_env env "SESSION_MAX_AGE_MS" (pos 600000) ≡ ok c.session_max_age)
      × (get_optional_numeric_env env "JWT_CLOCK_TOLERANCE_SECONDS" (pos 60)
          ≡ ok c.jwt_clock_tolerance)
      × (load_limits env ≡ ok c.rate_limit)
      × (load_cookies env ≡ ok c.cookies)
      × (load_rotation env ≡ ok c.rotation)

  github_threshold :
      (base_url : String) {g : GithubSettings}
      → load_github env base64_decode require_ssl base_url ≡ ok g
      → load_threshold env ≡ ok g.token_refresh_threshold_seconds
  unfolding load_github
  github_threshold base_url h = and_then-elim h λ a e0 h. and_then-elim h λ b e1 h.
      and_then-elim h λ c e2 h. and_then-elim h λ k e3 h. and_then-elim h λ d e4 h.
        and_then-elim h λ f e5 h. and_then-elim h λ t e6 h.
          subst (λ (g : GithubSettings). load_threshold env ≡ ok g.token_refresh_threshold_seconds)
            (ok_lem h) e6

  pub load_config-Parts :
      {c : Settings} → load_config env base64_decode require_ssl ≡ ok c → Parts c
  unfolding load_config
  load_config-Parts h = and_then-elim h λ port e0 h. and_then-elim h λ secrets e1 h.
      and_then-elim h λ url e2 h. and_then-elim h λ database e3 h. and_then-elim h λ github e4 h.
        and_then-elim h λ redis e5 h. and_then-elim h λ session e6 h. and_then-elim h λ age e7 h.
          and_then-elim h λ tolerance e8 h. and_then-elim h λ limits e9 h.
            and_then-elim h λ cookies e10 h. and_then-elim h λ rotation e11 h.
              subst Parts (ok_lem h)
                (e0, e1, (url, e3), github_threshold _ e4, e5, e6, e7, e8, e9, e10, e11)
