-- ===== src/Scripts/ManageServices/Keys.antt =====
-- The keys that the commands print, and the question before a deletion.
use af_auth.Base.{
  suc, String, ◌≡◌, refl, sym, ◌∙◌, true, none, some, [], arith, ◌⊎◌, inl, inr, Bool-cases, truthy,
  or_else,
}
use af_auth.Base.Eff.{ok, err, Thrown, pure, ◌>>=◌, World, Result-cases, Lookup-cases}
use af_auth.Env.{Env, Service, NewService}
use af_auth.Env.Laws.{ServicesWritten, HashMatches}
use af_auth.ServiceRegistry.{
  ServiceEntry, CreateOptions, new_service, entry_of, authenticated, authenticate_service,
  create_service, rotate_service_api_key, get_service, bcrypt_rounds,
}
use af_auth.ServiceRegistry.Authentication.{authenticate_service_iff}
use af_auth.Scripts.ManageServices.{
  AddOptions, created, rotated, add_service, add_found, key_or_generate, rotate_key, rotate_found,
}

-- Prisma: a row that was created is found with the hash that it was given.
pub record ServicesCreated {S : Type 0} (env : Env S) : Type 0 where
  pub key_created :
      (n : NewService) (row found : Service) (s : S)
      → (env.create_service n s).0 ≡ ok row
      → env.find_service n.service_identifier (env.create_service n s).1 ≡ ok (some found)
      → found.hashed_api_key ≡ n.hashed_api_key

module _ {S : Type 0} (env : Env S) (to_lower : String → String) (written : ServicesWritten env)
    (creates : ServicesCreated env) (hashes : HashMatches env) where
  -- A command that ended by printing a key for a service, with the world that it left.
  abbrev pub Printed : String → String → World S → World S → Type 0
  Printed id key w v =
      ((options : AddOptions) × (entry : ServiceEntry) × ((add_service env to_lower id options w).0
          ≡ ok (created entry key))
        × (v ≡ (add_service env to_lower id options w).1))
      ⊎ (((rotate_key env to_lower id w).0 ≡ ok (rotated id key))
          × (v ≡ (rotate_key env to_lower id w).1))

  -- The stored hash of the service is one that the key matches.
  abbrev KeyStored : String → String → S → Type 0
  KeyStored id key s =
      (service : Service)
      → env.find_service id s ≡ ok (some service)
      → env.bcrypt_compare key service.hashed_api_key ≡ ok true

  create-KeyStored :
      (id key : String) (options : CreateOptions) (entry : ServiceEntry) (w : World S)
      → (create_service env id key options w).0 ≡ ok entry
      → KeyStored id key (create_service env id key options w).1.db
  unfolding create_service
  create-KeyStored id key options entry w h service found =
      let t : S = (env.bcrypt_hash key bcrypt_rounds w.db).1 in
      elim (Result-cases (env.bcrypt_hash key bcrypt_rounds w.db).0) [
        | inr (x, e) ↦ absurd (ground arith)
        | inl (hashed, e) ↦
            let n : NewService = new_service id hashed options in
            elim (Result-cases (env.create_service n t).0) [
              | inr (x, f) ↦ absurd (ground arith)
              | inl (row, f) ↦
                  let k : service.hashed_api_key ≡ hashed =
                    creates.key_created n row service t f (ground arith) in
                  rw k (hashes.hash_matches key hashed bcrypt_rounds w.db e)
            ]
      ]

  rotate-KeyStored :
      (id key : String) (w : World S)
      → (rotate_service_api_key env id key w).0 ≡ ok tt
      → KeyStored id key (rotate_service_api_key env id key w).1.db
  unfolding rotate_service_api_key
  rotate-KeyStored id key w h service found =
      let t : S = (env.bcrypt_hash key bcrypt_rounds w.db).1 in
      elim (Result-cases (env.bcrypt_hash key bcrypt_rounds w.db).0) [
        | inr (x, e) ↦ absurd (ground arith)
        | inl (hashed, e) ↦ elim (Result-cases (env.set_api_key id hashed (w.clock w.reads) t).0) [
          | inr (x, f) ↦ absurd (ground arith)
          | inl (row, f) ↦
              let k : service.hashed_api_key ≡ hashed =
                written.key_written id hashed (w.clock w.reads) row service t f (ground arith) in
              rw k (hashes.hash_matches key hashed bcrypt_rounds w.db e)
        ]
      ]

  abbrev add_options : AddOptions → CreateOptions
  add_options options = record {
    allowed_scopes = some (elim options.scopes [ none ↦ [] | some l ↦ l ]);
    description = options.description;
    is_active = none;
  }

  added-KeyStored :
      (id key given : String) (options : AddOptions) (entry : ServiceEntry) (w : World S)
      → ((create_service env id given (add_options options) >>= λ s. pure (created s given)) w).0
        ≡ ok (created entry key)
      → KeyStored id key
          ((create_service env id given (add_options options) >>= λ s. pure (created s given))
            w).1.db
  added-KeyStored id key given options entry w h service found =
      elim (Result-cases (create_service env id given (add_options options) w).0) [
        | inr (x, e) ↦ absurd (ground arith)
        | inl (s, e) ↦
            let same : given ≡ key = ground arith in
            rw (← same)
              (create-KeyStored id given (add_options options) s w e service (ground arith))
      ]

  Printed-KeyStored : (id key : String) (w v : World S) → Printed id key w v → KeyStored id key v.db
  unfolding add_service add_found rotate_key rotate_found get_service key_or_generate
  Printed-KeyStored id key w v (inl (options, entry, h, e)) service found =
      elim (Lookup-cases (env.find_service id w.db)) [
        | inr (inr (x, f)) ↦ absurd (ground arith)
        | inl (s, f) ↦ absurd (ground arith)
        | inr (inl f) ↦ elim (Bool-cases (truthy options.api_key)) [
          | inl given ↦
              added-KeyStored id key (or_else options.api_key "") options entry w (ground arith)
                service (ground arith)
          | inr fresh ↦
              added-KeyStored id key (w.random w.drawn) options entry
                (record w { drawn = suc w.drawn }) (ground arith) service (ground arith)
        ]
      ]
  Printed-KeyStored id key w v (inr (h, e)) service found =
      elim (Lookup-cases (env.find_service id w.db)) [
        | inr (inr (x, f)) ↦ absurd (ground arith)
        | inr (inl f) ↦ absurd (ground arith)
        | inl (s, f) ↦
            let drawn : World S = record w { drawn = suc w.drawn } in
            elim (Result-cases (rotate_service_api_key env id (w.random w.drawn) drawn).0) [
              | inr (x, g) ↦ absurd (ground arith)
              | inl (u, g) ↦
                  let same : w.random w.drawn ≡ key = ground arith in
                  rw (← same)
                    (rotate-KeyStored id (w.random w.drawn) drawn g service (ground arith))
            ]
      ]

  -- The key that `add` or `rotate` has printed authenticates the service from then on, in any world
  -- that has its row as the command left it, while the row is active and the time of the use can be
  -- written.
  pub printed-authenticates :
      (id key : String) (service : Service) (w v w' : World S)
      → Printed id key w v
      → env.find_service id w'.db ≡ env.find_service id v.db
      → env.find_service id w'.db ≡ ok (some service)
      → service.is_active ≡ true
      → (((e : Thrown) × ((env.set_last_used service.id (w'.clock w'.reads) w'.db).0 ≡ err e)) → ⊥)
      → (authenticate_service env id key w').0 ≡ ok (authenticated (entry_of service))
  printed-authenticates id key service w v w' printed same found active recorded =
      (authenticate_service_iff env id key w' (entry_of service)).1 (record {
        service = service;
        found = found;
        active = active;
        key = Printed-KeyStored id key w v printed service (sym same ∙ found);
        recorded = recorded;
        described = refl;
      })
