-- ===== src/Scripts/ManageServices.antt =====
-- scripts/manage-services.ts: the command line of the service registry. What a command prints is a
-- value here, with the data that is printed; `process.exit` ends the program at once.
pub mod Keys
pub mod Commands
use af_auth.Base.{
  ℕ, String, Bool, true, false, not, Option, none, some, List, [], ◌∷◌, ◌===◌, ◌+++◌, any,
  if◌then◌else◌, truthy, or_else, split, starts_with,
}
use af_auth.Base.Eff.{
  Result, ok, err, Thrown, message, World, Eff, pure, random_text, branch, try_catch, ◌>>=◌, ◌>>◌,
}
use af_auth.Env.{Env}
use af_auth.ServiceRegistry.{
  ServiceEntry, create_service, rotate_service_api_key, deactivate_service, activate_service,
  delete_service, list_services, get_service,
}

-- How a command ends: what it says, and for `failed` the exit code 1.
pub data Outcome : Type 0 where
  usage : Outcome
  failed : String → Outcome
  created : ServiceEntry → String → Outcome
  rotated : String → String → Outcome
  said : String → Outcome
  listed : List ServiceEntry → Outcome
  shown : ServiceEntry → Outcome

abbrev pub is_failed : Outcome → Bool
is_failed (failed why) = true
is_failed usage = false
is_failed (created service key) = false
is_failed (rotated id key) = false
is_failed (said what) = false
is_failed (listed services) = false
is_failed (shown service) = false

pub record AddOptions : Type 0 where
  pub description : Option String
  pub scopes : Option (List String)
  pub api_key : Option String

abbrev pub not_found : String → Outcome
not_found service_identifier = failed ("Service '" +++ service_identifier +++ "' not found.")

-- The value after the first `name` of the arguments, unless it starts with "--".
abbrev value_after : List String → Option String
value_after [] = none
value_after (v ∷ rest) = if starts_with v "--" then none else some v

abbrev pub option_value : String → List String → Option String
option_value name [] = none
option_value name (a ∷ args) =
    let rest = option_value name args in if a === name then value_after args else rest

abbrev pub scopes_of : Option String → Option (List String)
scopes_of none = none
scopes_of (some s) = some (split b',' s)

module _ {S : Type 0} (env : Env S) (to_lower : String → String) where
  -- `to_lower` is `toLowerCase`.
  -- `generateApiKey`
  abbrev pub generate_api_key : Eff S String
  generate_api_key = random_text

  -- `options.apiKey || generateApiKey()`
  unfoldable pub key_or_generate : Option String → Eff S String
  key_or_generate given = branch (truthy given) (pure (or_else given "")) generate_api_key

  -- A `catch` that prints the message behind `what` and exits.
  abbrev pub failing : String → Thrown → Eff S Outcome
  failing what e = pure (failed (what +++ message e))

  unfoldable pub add_found : String → AddOptions → Option ServiceEntry → Eff S Outcome
  add_found service_identifier options (some existing) =
      pure (failed ("Service '" +++ service_identifier +++ "' already exists."))
  add_found service_identifier options none = do
    api_key ← key_or_generate options.api_key
    service ← create_service env service_identifier api_key (record {
      allowed_scopes = some (elim options.scopes [ none ↦ [] | some l ↦ l ]);
      description = options.description;
      is_active = none;
    })
    pure (created service api_key)

  unfoldable pub add_service : String → AddOptions → Eff S Outcome
  add_service service_identifier options =
      try_catch
        (do
          existing ← get_service env service_identifier
          add_found service_identifier options existing)
        (failing "Error creating service: ")

  unfoldable pub rotate_found : String → Option ServiceEntry → Eff S Outcome
  rotate_found service_identifier none = pure (not_found service_identifier)
  rotate_found service_identifier (some service) = do
    new_api_key ← generate_api_key
    rotate_service_api_key env service_identifier new_api_key
    pure (rotated service_identifier new_api_key)

  unfoldable pub rotate_key : String → Eff S Outcome
  rotate_key service_identifier =
      try_catch
        (do service ← get_service env service_identifier; rotate_found service_identifier service)
        (failing "Error rotating API key: ")

  unfoldable pub deactivate_found : String → Option ServiceEntry → Eff S Outcome
  deactivate_found service_identifier none = pure (not_found service_identifier)
  deactivate_found service_identifier (some service) =
      branch service.is_active
        (do
          deactivate_service env service_identifier
          pure (said ("Service '" +++ service_identifier +++ "' deactivated.")))
        (pure (said ("Service '" +++ service_identifier +++ "' is already inactive.")))

  unfoldable pub deactivate : String → Eff S Outcome
  deactivate service_identifier =
      try_catch
        (do
          service ← get_service env service_identifier
          deactivate_found service_identifier service)
        (failing "Error deactivating service: ")

  unfoldable pub activate_found : String → Option ServiceEntry → Eff S Outcome
  activate_found service_identifier none = pure (not_found service_identifier)
  activate_found service_identifier (some service) =
      branch service.is_active
        (pure (said ("Service '" +++ service_identifier +++ "' is already active.")))
        (do
          activate_service env service_identifier
          pure (said ("Service '" +++ service_identifier +++ "' activated.")))

  unfoldable pub activate : String → Eff S Outcome
  activate service_identifier =
      try_catch
        (do service ← get_service env service_identifier; activate_found service_identifier service)
        (failing "Error activating service: ")

  -- `question` asks for the answer.
  unfoldable pub delete_found : Eff S String → String → Option ServiceEntry → Eff S Outcome
  delete_found question service_identifier none = pure (not_found service_identifier)
  delete_found question service_identifier (some service) = do
    answer ← question
    branch (to_lower answer === "yes")
        (do
          delete_service env service_identifier
          pure (said ("Service '" +++ service_identifier +++ "' deleted permanently.")))
        (pure (said "Cancelled."))

  unfoldable pub delete_service_cmd : Eff S String → String → Eff S Outcome
  delete_service_cmd question service_identifier =
      try_catch
        (do
          service ← get_service env service_identifier
          delete_found question service_identifier service)
        (failing "Error deleting service: ")

  abbrev list_or_none : List ServiceEntry → Outcome
  list_or_none [] = said "No services found."
  list_or_none (s ∷ rest) = listed (s ∷ rest)

  unfoldable pub list : Bool → Eff S Outcome
  list active_only =
      try_catch (do services ← list_services env active_only; pure (list_or_none services))
        (failing "Error listing services: ")

  abbrev show_found : String → Option ServiceEntry → Outcome
  show_found service_identifier none = not_found service_identifier
  show_found service_identifier (some service) = shown service

  unfoldable pub show : String → Eff S Outcome
  show service_identifier =
      try_catch
        (do
          service ← get_service env service_identifier
          pure (show_found service_identifier service))
        (failing "Error showing service: ")

  -- A command that needs `args[1]`; the empty text counts as missing.
  unfoldable pub with_identifier : List String → (String → Eff S Outcome) → Eff S Outcome
  with_identifier [] run = pure (failed "Service identifier is required.")
  with_identifier (id ∷ rest) run =
      branch (truthy (some id)) (run id) (pure (failed "Service identifier is required."))

  -- The `switch`: the command, and the arguments behind it.
  unfoldable pub dispatch : Eff S String → String → List String → Eff S Outcome
  dispatch question command args =
      branch (command === "add")
        (with_identifier args (λ id. add_service id (record {
          description = option_value "--description" (command ∷ args);
          scopes = scopes_of (option_value "--scopes" (command ∷ args));
          api_key = none;
        })))
        (branch (command === "rotate") (with_identifier args rotate_key) (
          branch (command === "deactivate") (with_identifier args deactivate) (
            branch (command === "activate") (with_identifier args activate) (
              branch (command === "delete") (with_identifier args (delete_service_cmd question)) (
                branch (command === "list") (list (not (any (λ a. a === "--all") (command ∷ args))))
                  (branch (command === "show") (with_identifier args show)
                    (pure (failed ("Unknown command: " +++ command)))))))))

  -- The end of `main`: a command that fails has left the program before the connection is closed.
  unfoldable pub finish : Eff S (Unit {0}) → Outcome → Eff S (Outcome × ℕ)
  finish disconnect outcome =
      branch (is_failed outcome) (pure (outcome, 1)) (do disconnect; pure (outcome, 0))

  -- The `catch` of `main`, which itself closes the connection.
  abbrev pub fatal : Eff S (Unit {0}) → Thrown → Eff S (Outcome × ℕ)
  fatal disconnect e = do disconnect; pure (failed ("Fatal error: " +++ message e), 1)

  -- `args` are those of the process. Without a command the usage is printed.
  unfoldable pub main :
      Eff S (Unit {0}) → Eff S (Unit {0}) → Eff S String → List String → Eff S (Outcome × ℕ)
  main connect disconnect question [] = pure (usage, 0)
  main connect disconnect question (command ∷ args) =
      branch (truthy (some command))
        (try_catch (do connect; outcome ← dispatch question command args; finish disconnect outcome)
          (fatal disconnect))
        (pure (usage, 0))
