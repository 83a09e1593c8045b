-- ===== src/Tests/Services.antt =====
-- The theorems on services, on stored GitHub tokens and on the login at a small state.
use af_auth.Base.{show, ◌≡◌, ◌↔◌, refl, some, arith}
use af_auth.Base.Eff.{ok}
use af_auth.ServiceRegistry.{
  ServiceEntry, entry_of, authenticated, authenticate_service, deactivate_service, delete_service,
  rotate_service_api_key,
}
use af_auth.ServiceRegistry.Authentication.{authenticate_service_iff, Matches}
use af_auth.Encryption.{cached, join_parts, encrypt, decrypt, derive_key}
use af_auth.Encryption.Cache.{decrypt-encrypt, IsSound}
use af_auth.Tests.Db.{env, world, service}
use af_auth.Tests.Laws.{ciphers}

abbrev entry : ServiceEntry
entry = entry_of service

authenticate_service_iff_example :
    ((authenticate_service env "svc" "k" world).0 ≡ ok (authenticated entry))
    ↔ Matches env "svc" "k" world entry
authenticate_service_iff_example = authenticate_service_iff env "svc" "k" world entry

deactivates : (deactivate_service env "svc" world).0 ≡ ok tt
unfolding deactivate_service
deactivates = refl

deletes_service : (delete_service env "svc" world).0 ≡ ok tt
unfolding delete_service
deletes_service = refl

abbrev rotated_entry : ServiceEntry
rotated_entry = entry_of (record service { last_api_key_rotated_at = some 5000 })

rotates : (rotate_service_api_key env "svc" "new" world).0 ≡ ok tt
unfolding rotate_service_api_key
rotates = refl

new_key_works :
    (authenticate_service env "svc" "new" (rotate_service_api_key env "svc" "new" world).1).0
    ≡ ok (authenticated rotated_entry)
unfolding rotate_service_api_key authenticate_service entry_of
new_key_works = refl

sound : IsSound env world
unfolding cached
sound = record { same = λ salt key h. absurd (ground arith) }

encrypted : (encrypt env "gho:1" world).0 ≡ ok "r0:r1:tag:gho~01"
unfolding encrypt join_parts derive_key show cached
encrypted = refl

decrypt-encrypt_example : (decrypt env "r0:r1:tag:gho~01" world).0 ≡ ok "gho:1"
decrypt-encrypt_example =
    decrypt-encrypt env ciphers "gho:1" "r0:r1:tag:gho~01" world world sound sound encrypted
