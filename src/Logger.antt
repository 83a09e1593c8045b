-- ===== src/Logger.antt =====
-- src/utils/logger.ts: the redaction of sensitive fields, before anything is printed. Upper and lower
-- case are those of ASCII: another letter is left as it is, and no field has one. The serializer of
-- errors and the set-up of pino are not modelled.
pub mod Redaction
pub mod CamelCase
pub mod Entries
use Prim.Native.Char.{code}
use Prim.Native.String
use af_auth.Base.{
  ℕ, zero, suc, ◌+◌, ◌-◌, String, Bool, true, false, ◌&&◌, ◌||◌, Option, none, some, List, [], ◌∷◌,
  any, leb, ltb, ◌==◌, ◌+++◌, substring_from, size, if◌then◌else◌,
}

abbrev pub is_upper : ℕ → Bool
is_upper c = leb b'A' c && leb c b'Z'

abbrev pub lower : ℕ → ℕ
lower c = if is_upper c then c + 32 else c

-- `a.toLowerCase() === b.toLowerCase()`
abbrev pub same_lower : String → String → Bool
same_lower String.[] String.[] = true
same_lower (String.◌∷◌ c s) (String.◌∷◌ d t) = lower (code c) == lower (code d) && same_lower s t
same_lower _ _ = false

abbrev pub starts_upper : String → Bool
starts_upper String.[] = false
starts_upper (String.◌∷◌ c s) = is_upper (code c)

-- The last `n` characters of a text that has as many.
abbrev pub last_part : ℕ → String → String
last_part n s = substring_from (size s - n) s

-- The key is the field, or ends in "_" and the field, or ends in the field with a capital letter.
unfoldable pub matches_field : String → String → Bool
matches_field key name =
    same_lower key name
    || (leb (suc (size name)) (size key)
        && same_lower (last_part (suc (size name)) key) ("_" +++ name))
    || (ltb (size name) (size key)
        && (same_lower (last_part (size name) key) name
            && starts_upper (last_part (size name) key)))

abbrev pub sensitive_fields : List String
sensitive_fields =
    "password" ∷ "token" ∷ "accessToken" ∷ "access_token" ∷ "refreshToken" ∷ "refresh_token"
    ∷ "githubAccessToken" ∷ "github_access_token" ∷ "githubRefreshToken" ∷ "github_refresh_token"
    ∷ "secret" ∷ "apiKey" ∷ "api_key" ∷ "authorization" ∷ "cookie" ∷ "sessionId" ∷ "session_id"
    ∷ "ssn" ∷ "creditCard" ∷ "credit_card" ∷ "cvv" ∷ "email" ∷ "name" ∷ "login" ∷ "username"
    ∷ "firstName" ∷ "first_name" ∷ "lastName" ∷ "last_name" ∷ "fullName" ∷ "full_name"
    ∷ "phoneNumber" ∷ "phone_number" ∷ "address" ∷ "street" ∷ "city" ∷ "zipCode" ∷ "zip_code"
    ∷ "postalCode" ∷ "postal_code" ∷ "privateKey" ∷ "private_key" ∷ "publicKey" ∷ "public_key"
    ∷ "encryptionKey" ∷ "encryption_key" ∷ "clientSecret" ∷ "client_secret" ∷ []

unfoldable pub is_sensitive : String → Bool
is_sensitive key = any (λ name. matches_field key name) sensitive_fields

-- A value that is logged; an array or an object has an identity, since it may occur more than once.
-- (A cycle is cut off where it first comes back to an object, so it is a tree here too.)
mutual
  pub data Logged : Type 0 where
    scalar : String → Logged
    array : ℕ → LoggedItems → Logged
    object : ℕ → LoggedFields → Logged

  pub data LoggedItems : Type 0 where
    end : LoggedItems
    item : Logged → LoggedItems → LoggedItems

  pub data LoggedFields : Type 0 where
    empty : LoggedFields
    field : String → Logged → LoggedFields → LoggedFields

-- What is made of it.
mutual
  pub data Printed : Type 0 where
    printed : String → Printed
    printed_array : PrintedItems → Printed
    printed_object : PrintedFields → Printed

  pub data PrintedItems : Type 0 where
    printed_end : PrintedItems
    printed_item : Printed → PrintedItems → PrintedItems

  pub data PrintedFields : Type 0 where
    printed_empty : PrintedFields
    printed_field : String → Printed → PrintedFields → PrintedFields

-- `visited.has(obj)`
abbrev pub visited_has : ℕ → List ℕ → Bool
visited_has id l = any (λ v. v == id) l

-- `redactSensitiveData`; the set of visited objects goes in and comes out.
unfoldable mutual
  pub redact_sensitive_data : Logged → List ℕ → Printed × List ℕ
  redact_sensitive_data (scalar s) visited = (printed s, visited)
  redact_sensitive_data (array id items) visited =
      let inner = redact_items items (id ∷ visited) in
      if visited_has id visited
      then (printed "[Circular]", visited)
      else (printed_array inner.0, inner.1)
  redact_sensitive_data (object id fields) visited =
      let inner = redact_fields fields (id ∷ visited) in
      if visited_has id visited
      then (printed "[Circular]", visited)
      else (printed_object inner.0, inner.1)

  pub redact_items : LoggedItems → List ℕ → PrintedItems × List ℕ
  redact_items end visited = (printed_end, visited)
  redact_items (item x rest) visited =
      let first = redact_sensitive_data x visited in
      let others = redact_items rest first.1 in (printed_item first.0 others.0, others.1)

  pub redact_fields : LoggedFields → List ℕ → PrintedFields × List ℕ
  redact_fields empty visited = (printed_empty, visited)
  redact_fields (field key value rest) visited =
      let hidden_others = redact_fields rest visited in
      let shown = redact_sensitive_data value visited in
      let others = redact_fields rest shown.1 in
      if is_sensitive key
      then (printed_field key (printed "[REDACTED]") hidden_others.0, hidden_others.1)
      else (printed_field key shown.0 others.0, others.1)
