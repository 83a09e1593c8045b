-- ===== src/ServiceRegistry.antt =====
-- src/services/service-registry.ts: the services that may ask for tokens, their API keys (stored as
-- bcrypt hashes) and the audit log. Prisma's `update` and `delete` of a missing row throw. Logging
-- only prints.
pub mod Authentication
pub mod Lifecycle
use af_auth.Base.{
  ℕ, String, Bool, true, false, Option, none, some, List, [], map, or_null, truthy, if◌then◌else◌,
}
use af_auth.Base.Eff.{
  Result, ok, err, Thrown, Eff, pure, lift, query, command, try_catch, branch, now, ◌>>=◌, ◌>>◌,
}
use af_auth.Env.{Env, Service, NewService, AuditEntry}

abbrev pub bcrypt_rounds : ℕ
bcrypt_rounds = 12

-- `ServiceRegistryEntry`: a row without its hash.
pub record ServiceEntry : Type 0 where
  pub id : String
  pub service_identifier : String
  pub allowed_scopes : List String
  pub is_active : Bool
  pub description : Option String
  pub created_at : ℕ
  pub updated_at : ℕ
  pub last_used_at : Option ℕ
  pub last_api_key_rotated_at : Option ℕ

unfoldable pub entry_of : Service → ServiceEntry
entry_of s = record {
  id = s.id;
  service_identifier = s.service_identifier;
  allowed_scopes = s.allowed_scopes;
  is_active = s.is_active;
  description = s.description;
  created_at = s.created_at;
  updated_at = s.updated_at;
  last_used_at = s.last_used_at;
  last_api_key_rotated_at = s.last_api_key_rotated_at;
}

-- `ServiceAuthResult`
pub data AuthResult : Type 0 where
  authenticated : ServiceEntry → AuthResult
  refused : String → AuthResult

-- The options of `createService`, each of which may be left out.
pub record CreateOptions : Type 0 where
  pub allowed_scopes : Option (List String)
  pub description : Option String
  pub is_active : Option Bool

pub record AuditOptions : Type 0 where
  pub error_message : Option String
  pub ip_address : Option String
  pub user_agent : Option String

abbrev pub scopes_or_none : Option (List String) → List String
scopes_or_none none = []
scopes_or_none (some l) = l

abbrev pub active_or_true : Option Bool → Bool
active_or_true none = true
active_or_true (some b) = b

abbrev pub new_service : String → String → CreateOptions → NewService
new_service service_identifier hashed options = record {
  service_identifier = service_identifier;
  hashed_api_key = hashed;
  allowed_scopes = scopes_or_none options.allowed_scopes;
  description = or_null options.description;
  is_active = active_or_true options.is_active;
}

module _ {S : Type 0} (env : Env S) where
  unfoldable pub create_service : String → String → CreateOptions → Eff S ServiceEntry
  create_service service_identifier api_key options = do
    hashed ← command (env.bcrypt_hash api_key bcrypt_rounds)
    service ← command (env.create_service (new_service service_identifier hashed options))
    pure (entry_of service)

  -- The rest of `authenticateService` once the key was compared: the use is written down, and the
  -- answer describes the row as it was read.
  pub accept_key : Service → Bool → Eff S AuthResult
  accept_key service false = pure (refused "Invalid API key")
  accept_key service true = do
    t ← now
    command (env.set_last_used service.id t)
    pure (authenticated (entry_of service))

  pub accept_service : String → Option Service → Eff S AuthResult
  accept_service api_key none = pure (refused "Service not found")
  accept_service api_key (some service) =
      branch service.is_active
        (do
          valid ← lift (env.bcrypt_compare api_key service.hashed_api_key)
          accept_key service valid)
        (pure (refused "Service is inactive"))

  unfoldable pub authenticate_service : String → String → Eff S AuthResult
  unfolding accept_key accept_service
  authenticate_service service_identifier api_key =
      try_catch
        (do service ← query (env.find_service service_identifier); accept_service api_key service)
        (λ e. pure (refused "Authentication error"))

  entry_of_found : Option Service → Option ServiceEntry
  entry_of_found none = none
  entry_of_found (some s) = some (entry_of s)

  unfoldable pub get_service : String → Eff S (Option ServiceEntry)
  unfolding entry_of_found
  get_service service_identifier = do
    service ← query (env.find_service service_identifier)
    pure (entry_of_found service)

  unfoldable pub rotate_service_api_key : String → String → Eff S (Unit {0})
  rotate_service_api_key service_identifier new_api_key = do
    hashed ← command (env.bcrypt_hash new_api_key bcrypt_rounds)
    t ← now
    command (env.set_api_key service_identifier hashed t)
    pure tt

  unfoldable pub deactivate_service : String → Eff S (Unit {0})
  deactivate_service service_identifier = do
    command (env.set_active service_identifier false)
    pure tt

  unfoldable pub activate_service : String → Eff S (Unit {0})
  activate_service service_identifier = do command (env.set_active service_identifier true); pure tt

  unfoldable pub delete_service : String → Eff S (Unit {0})
  delete_service service_identifier = do command (env.delete_service service_identifier); pure tt

  unfoldable pub list_services : Bool → Eff S (List ServiceEntry)
  list_services active_only = do
    services ← query (env.list_services active_only)
    pure (map entry_of services)

  -- An entry that cannot be written is dropped: the request goes on.
  unfoldable pub log_service_access :
      String → String → String → Bool → AuditOptions → Eff S (Unit {0})
  log_service_access service_id user_id action success options =
      try_catch
        (command (
          env.create_audit_entry (record {
            service_id = service_id;
            user_id = user_id;
            action = action;
            success = success;
            error_message = or_null options.error_message;
            ip_address = or_null options.ip_address;
            user_agent = or_null options.user_agent;
          })))
        (λ e. pure tt)
