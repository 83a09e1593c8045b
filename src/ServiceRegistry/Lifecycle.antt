-- ===== src/ServiceRegistry/Lifecycle.antt =====
-- What the changes of a service mean for its next attempts to authenticate.
use af_auth.Base.{String, ◌≡◌, ◌≢◌, true, false, arith, inl, inr, subst}
use af_auth.Base.Eff.{ok, World, Result-cases}
use af_auth.Env.{Env}
use af_auth.Env.Laws.{ServicesWritten, HashMatches}
use af_auth.ServiceRegistry.{
  ServiceEntry, authenticated, authenticate_service, deactivate_service, delete_service,
  rotate_service_api_key, bcrypt_rounds,
}
use af_auth.ServiceRegistry.Authentication.{authenticate_service_iff}

module _ {S : Type 0} (env : Env S) (laws : ServicesWritten env) where
  -- Once a service was deactivated, no key authenticates it, in any world that has its row as the
  -- deactivation left it.
  pub deactivated-refused :
      (identifier key : String) (w w' : World S) (entry : ServiceEntry)
      → (deactivate_service env identifier w).0 ≡ ok tt
      → env.find_service identifier w'.db
        ≡ env.find_service identifier (deactivate_service env identifier w).1.db
      → (authenticate_service env identifier key w').0 ≢ ok (authenticated entry)
  unfolding deactivate_service
  deactivated-refused identifier key w w' entry h same admitted =
      let m = (authenticate_service_iff env identifier key w' entry).0 admitted in
      elim (Result-cases (env.set_active identifier false w.db).0) [
        | inl (row, e) ↦
            let inactive : m.service.is_active ≡ false =
              laws.active_written identifier false row m.service w.db e (ground (arith, m.found)) in
            ground (arith, m.active)
        | inr (x, e) ↦ ground arith
      ]

  -- Nor does any key once the service was deleted.
  pub deleted-refused :
      (identifier key : String) (w w' : World S) (entry : ServiceEntry)
      → (delete_service env identifier w).0 ≡ ok tt
      → env.find_service identifier w'.db
        ≡ env.find_service identifier (delete_service env identifier w).1.db
      → (authenticate_service env identifier key w').0 ≢ ok (authenticated entry)
  unfolding delete_service
  deleted-refused identifier key w w' entry h same admitted =
      let m = (authenticate_service_iff env identifier key w' entry).0 admitted in
      elim (Result-cases (env.delete_service identifier w.db).0) [
        | inl (row, e) ↦ laws.row_deleted identifier row m.service w.db e (ground (arith, m.found))
        | inr (x, e) ↦ ground arith
      ]

  -- After a rotation a key authenticates the service only if it matches the hash that was drawn for
  -- the new key, and the new key itself does match it.
  pub rotated-key :
      HashMatches env
      → (identifier new_key key : String) (w w' : World S) (entry : ServiceEntry)
      → (rotate_service_api_key env identifier new_key w).0 ≡ ok tt
      → env.find_service identifier w'.db
        ≡ env.find_service identifier (rotate_service_api_key env identifier new_key w).1.db
      → (authenticate_service env identifier key w').0 ≡ ok (authenticated entry)
      → (hashed : String) × ((env.bcrypt_hash new_key bcrypt_rounds w.db).0 ≡ ok hashed)
        × (env.bcrypt_compare key hashed ≡ ok true)
        × (env.bcrypt_compare new_key hashed ≡ ok true)
  unfolding rotate_service_api_key
  rotated-key matches identifier new_key key w w' entry h same admitted =
      let m = (authenticate_service_iff env identifier key w' entry).0 admitted in
      elim (Result-cases (env.bcrypt_hash new_key bcrypt_rounds w.db).0) [
        | inl (hashed, e) ↦
            elim (Result-cases
              (env.set_api_key identifier hashed (w.clock w.reads)
                (env.bcrypt_hash new_key bcrypt_rounds w.db).1).0) [
                  | inl (row, f) ↦
                      let written : m.service.hashed_api_key ≡ hashed =
                        laws.key_written identifier hashed (w.clock w.reads) row m.service
                          (env.bcrypt_hash new_key bcrypt_rounds w.db).1 f
                          (ground (arith, m.found)) in
                      (
                        hashed,
                        e,
                        subst (λ x. env.bcrypt_compare key x ≡ ok true) written m.key,
                        matches.hash_matches new_key hashed bcrypt_rounds w.db e,
                      )
                  | inr (x, f) ↦ absurd (ground arith)
                ]
        | inr (x, e) ↦ absurd (ground arith)
      ]
