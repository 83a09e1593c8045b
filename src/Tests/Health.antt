-- ===== src/Tests/Health.antt =====
-- The theorems on the health checks, at a state where Redis is down.
use af_auth.Base.{ℕ, ◌≡◌, refl, true, false, Option, none, some, [], ◌⊎◌}
use af_auth.Base.Eff.{ok, World}
use af_auth.HealthCheck.{Probes, AppCheck, fine, healthy, check_github_app_health}
use af_auth.Server.{Answer, status, health_route, ready_route}
use af_auth.Server.Probes.{ready_route-health_route}
use af_auth.Tests.Db.{config}

-- Redis is down, everything else is up.
abbrev probes : Probes (Unit {0})
probes = record {
  production = true;
  ssl_enabled = true;
  metrics_enabled = false;
  app_id = some "1";
  app_private_key = some "pem";
  app_installation_id = some "2";
  database = λ s. ok true;
  redis_connected = λ s. ok false;
  redis_ping = λ s. ok "PONG";
  metrics_initialized = λ s. ok false;
  metrics_registry = λ s. ok false;
  metrics_output = λ s. ok "";
  sign_test = λ iat exp s. ok "jwt";
}

abbrev calm : ℕ → World (Unit {0})
calm t = record {
  db = tt;
  clock = λ n. t;
  reads = 0;
  random = λ n. "";
  drawn = 0;
  metrics = [];
  key_cache = [];
}

ready_route-health_route_example :
    (a : Answer) × (b : Answer) × (cache' : Option AppCheck) × ((health_route config probes none
        (calm 5)).0
      ≡ ok (a, cache'))
    × ((ready_route config probes (calm 6)).0 ≡ ok b)
    × (((status b ≡ 200) × (status a ≡ 200)) ⊎ (status b ≡ 503))
ready_route-health_route_example =
    ready_route-health_route config probes none (calm 5) (calm 6) refl

abbrev cached : AppCheck
cached = record { status = healthy; timestamp = 5; message_text = none }

signed : (check_github_app_health config probes none (calm 5)).0 ≡ ok (fine, some cached)
unfolding check_github_app_health
signed = refl
