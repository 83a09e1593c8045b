-- ===== src/Tests/Registry.antt =====
-- The theorems on the registry of metrics, with a client that keeps the changes as a list.
use af_auth.Base.{ℕ, suc, ◌≡◌, refl, some, List, [], ◌∷◌}
use af_auth.Base.Eff.{ok}
use af_auth.Metrics.Registry.{
  Collector, Change, inc, Prom, Call, initialize, record_jwt_operation, reset, start, call, calls,
  create_collectors, initialize_metrics, new_registry, ◌and_also◌,
}
use af_auth.Metrics.Registry.Ready.{IsReady, calls-IsReady}
use af_auth.Metrics.Registry.Told.{changed, call-told}
use af_auth.Tests.Settings.{settings}

pub record Client : Type 0 where
  pub registries : ℕ
  pub changes : List (Collector × Change)

abbrev client : Prom Client
client = record {
  new_registry = λ p. (p.registries, record p { registries = suc p.registries });
  set_default_labels = λ id labels p. p;
  collect_default_metrics = λ id prefix p. (ok tt, p);
  new_collector = λ c p. (ok tt, p);
  change = λ c change p. (ok tt, record p { changes = (c, change) ∷ p.changes });
  metrics = λ id p. ok "";
  clear = λ id p. p;
}

abbrev fresh : Client
fresh = record { registries = 0; changes = [] }

abbrev restarted : List Call
restarted = initialize ∷ reset ∷ initialize ∷ initialize ∷ []

-- The second registry is the one in use.
restarts : (calls client settings.metrics "test" restarted (start fresh)).registry ≡ some 1
unfolding calls call initialize_metrics new_registry create_collectors ◌and_also◌
restarts = refl

calls-IsReady_example :
    IsReady "af_auth_" (calls client settings.metrics "test" restarted (start fresh))
calls-IsReady_example = calls-IsReady client settings.metrics "test" restarted fresh

call-told_example :
    let s = calls client settings.metrics "test" restarted (start fresh) in
    call client settings.metrics "test" (record_jwt_operation "issue" "success") s
    ≡ changed client settings.metrics "test" "jwt_operations_total"
        (inc (("operation", "issue") ∷ ("status", "success") ∷ []))
        s
call-told_example =
    call-told client settings.metrics "test" restarted fresh
      (record_jwt_operation "issue" "success") "jwt_operations_total"
      (inc (("operation", "issue") ∷ ("status", "success") ∷ [])) refl
