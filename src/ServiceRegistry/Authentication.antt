-- ===== src/ServiceRegistry/Authentication.antt =====
-- Which services authenticate, and what the attempt changes.
use af_auth.Base.{String, ◌≡◌, ◌↔◌, true, some, arith, ◌⊎◌, inl, inr}
use af_auth.Base.Eff.{ok, err, World, Lookup-cases, Result-cases, Thrown}
use af_auth.Env.{Env, Service}
use af_auth.ServiceRegistry.{
  ServiceEntry, entry_of, authenticated, refused, accept_key, accept_service, authenticate_service,
}

module _ {S : Type 0} (env : Env S) where
  -- What a call with this identifier and key needs in order to authenticate as `entry`.
  pub record Matches (service_identifier api_key : String) (w : World S) (entry : ServiceEntry)
      : Type 0 where
    pub service : Service
    pub found : env.find_service service_identifier w.db ≡ ok (some service)
    pub active : service.is_active ≡ true
    pub key : env.bcrypt_compare api_key service.hashed_api_key ≡ ok true
    pub recorded :
        ((e : Thrown) × ((env.set_last_used service.id (w.clock w.reads) w.db).0 ≡ err e)) → ⊥
    pub described : entry ≡ entry_of service

  -- A service authenticates exactly when its row is there and active, the key matches the stored
  -- hash, and the time of the use can be written; the answer is that row without its hash.
  pub authenticate_service_iff :
      (service_identifier api_key : String) (w : World S) (entry : ServiceEntry)
      → ((authenticate_service env service_identifier api_key w).0 ≡ ok (authenticated entry))
        ↔ Matches service_identifier api_key w entry
  unfolding authenticate_service accept_key accept_service
  authenticate_service_iff service_identifier api_key w entry = (
    (λ h. elim (Lookup-cases (env.find_service service_identifier w.db)) [
      | inl (s, f) ↦ record {
        service = s;
        found = f;
        active = ground arith;
        key = ground arith;
        recorded = λ (x, e). ground arith;
        described = ground arith;
      }
      | inr (inl f) ↦ absurd (ground arith)
      | inr (inr (x, f)) ↦ absurd (ground arith)
    ]),
    λ m. elim (Result-cases (env.set_last_used m.service.id (w.clock w.reads) w.db).0) [
      | inl (a, e) ↦ ground (arith, m.found, m.active, m.key, m.described)
      | inr (x, e) ↦ absurd (m.recorded (x, e))
    ],
  )

  -- An attempt that is refused changes nothing outside, unless a call failed on the way: then the
  -- reason is "Authentication error".
  pub refused-unchanged :
      (service_identifier api_key reason : String) (w : World S)
      → (authenticate_service env service_identifier api_key w).0 ≡ ok (refused reason)
      → ((authenticate_service env service_identifier api_key w).1.db ≡ w.db)
        ⊎ (reason ≡ "Authentication error")
  unfolding authenticate_service accept_key accept_service
  refused-unchanged service_identifier api_key reason w h =
      elim (Lookup-cases (env.find_service service_identifier w.db)) [
        | inl (s, f) ↦ ground arith
        | inr (inl f) ↦ ground arith
        | inr (inr (x, f)) ↦ ground arith
      ]
