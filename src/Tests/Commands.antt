-- ===== src/Tests/Commands.antt =====
-- The theorems on the command line of the service registry, on the small state.
use af_auth.Base.{String, ◌≡◌, ◌≢◌, refl, true, none, some, [], ◌∷◌, arith, inr, eq_refl, show}
use af_auth.Base.Eff.{ok, err, Thrown, Eff, pure, World}
use af_auth.Env.{Service}
use af_auth.ServiceRegistry.{
  entry_of, authenticated, authenticate_service, create_service, rotate_service_api_key,
  get_service, delete_service,
}
use af_auth.Scripts.ManageServices
use af_auth.Scripts.ManageServices.{
  Outcome, created, rotated, said, add_service, add_found, key_or_generate, rotate_key,
  rotate_found, delete_service_cmd, delete_found, dispatch, with_identifier, finish, is_failed,
}
use af_auth.Scripts.ManageServices.Keys.{ServicesCreated, printed-authenticates}
use af_auth.Scripts.ManageServices.Commands.{delete_confirmed}
use af_auth.Tests.Db.{Db, env, world, db, service}
use af_auth.Tests.Laws.{services_written, hashes}

abbrev same : String → String
same s = s

creates : ServicesCreated env
creates = record { key_created = λ n row found s h f. ground (arith, eq_refl n.service_identifier) }

abbrev after_rotation : World Db
after_rotation = (rotate_key env same "svc" world).1

rotates : (rotate_key env same "svc" world).0 ≡ ok (rotated "svc" "r0")
unfolding rotate_key rotate_found get_service rotate_service_api_key show
rotates = refl

abbrev rotated_service : Service
rotated_service = record service { hashed_api_key = "hash r0"; last_api_key_rotated_at = some 5000 }

finds_rotated : env.find_service "svc" after_rotation.db ≡ ok (some rotated_service)
unfolding rotate_key rotate_found get_service rotate_service_api_key show
finds_rotated = refl

writes_use :
    ((e : Thrown) × ((env.set_last_used "s1"
          (after_rotation.clock after_rotation.reads)
          after_rotation.db).0
        ≡ err e))
    → ⊥
unfolding rotate_key rotate_found get_service rotate_service_api_key show
writes_use (e, h) = absurd (ground arith)

printed-authenticates_example :
    (authenticate_service env "svc" "r0" after_rotation).0
    ≡ ok (authenticated (entry_of rotated_service))
printed-authenticates_example =
    printed-authenticates env same services_written creates hashes "svc" "r0" rotated_service world
      after_rotation after_rotation (inr (rotates, refl)) refl finds_rotated refl writes_use

-- With nothing registered, `add` prints a key too.
adds :
    (add_service env same "new"
      (record { description = none; scopes = none; api_key = none })
      (record world { db = record db { service = none } })).0
    ≡ ok (
        created
          (record {
            id = "s2";
            service_identifier = "new";
            allowed_scopes = [];
            is_active = true;
            description = none;
            created_at = 0;
            updated_at = 0;
            last_used_at = none;
            last_api_key_rotated_at = none;
          })
          "r0")
unfolding add_service add_found key_or_generate get_service create_service entry_of show
adds = refl

abbrev answers : Eff Db String
answers = pure "yes"

deletes_row : (delete_service_cmd env same answers "svc" world).1.db ≡ record db { service = none }
unfolding delete_service_cmd delete_found get_service delete_service
deletes_row = refl

row_gone : (delete_service_cmd env same answers "svc" world).1.db ≢ world.db
row_gone h = ground (arith, deletes_row)

delete_confirmed_example :
    (s : Service) × (answer : String) × (env.find_service "svc" world.db ≡ ok (some s))
    × ((answers world).0 ≡ ok answer)
    × (same answer ≡ "yes")
delete_confirmed_example = delete_confirmed env same answers "svc" world refl row_gone

exits :
    (ManageServices.main env same (pure tt) (pure tt) answers ("delete" ∷ "svc" ∷ []) world).0
    ≡ ok (said "Service 'svc' deleted permanently.", 0)
unfolding ManageServices.main dispatch with_identifier delete_service_cmd delete_found get_service
    delete_service finish
exits = refl
