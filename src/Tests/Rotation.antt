-- ===== src/Tests/Rotation.antt =====
-- The theorem on the exit code of the rotation report, for an overdue key and an overdue service.
use af_auth.Base.{◌*◌, some, [], ◌∷◌}
use af_auth.Base.Int.{day_ms}
use af_auth.Base.Eff.{ok, Eff, World, pure}
use af_auth.Env.{Env}
use af_auth.ServiceRegistry.{ServiceEntry, entry_of, list_services}
use af_auth.KeyRotation.{RotationTable}
use af_auth.Scripts.CheckRotation
use af_auth.Tests.Db.{Db, env, world, service}
use af_auth.Tests.Keys.{rotated, created}

abbrev today : World Db
today = record world { clock = λ n. 181 * day_ms }

abbrev one_key : RotationTable Db
one_key = record {
  find = λ key s. ok (some rotated);
  list = λ active s. ok (rotated ∷ []);
  create = λ c s. (ok (created c), s);
  upsert = λ key u c s. (ok (created c), s);
}

abbrev rotated_once : ServiceEntry
rotated_once = entry_of (record service { last_api_key_rotated_at = some 0 })

abbrev listing : Env Db
listing = record env {
  list_services = λ active s. ok (record service { last_api_key_rotated_at = some 0 } ∷ []);
}

abbrev nothing : Eff Db (Unit {0})
nothing = pure tt
