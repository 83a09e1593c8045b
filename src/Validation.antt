-- ===== src/Validation.antt =====
-- src/middleware/validation.ts: the removal of dangerous properties from a request's body.
-- `undefined` does not occur in a parsed body.
pub mod Sanitize
pub mod Middleware
pub mod Passed
use af_auth.Base.{
  ℕ, String, Bool, true, false, Option, none, some, List, [], ◌∷◌, any, ◌===◌, ◌+++◌, if◌then◌else◌,
}
use af_auth.Base.Eff.{Thrown, Eff, pure, random_text, ◌>>=◌}

-- A value as `JSON.parse` makes it; a number is kept as its text.
mutual
  pub data Json : Type 0 where
    json_null : Json
    boolean : Bool → Json
    number : String → Json
    text : String → Json
    array : Items → Json
    object : Fields → Json

  pub data Items : Type 0 where
    end : Items
    item : Json → Items → Items

  pub data Fields : Type 0 where
    empty : Fields
    field : String → Json → Fields → Fields

-- `dangerous.includes(key)`
abbrev pub is_dangerous : String → Bool
is_dangerous key = any (λ d. d === key) ("__proto__" ∷ "constructor" ∷ "prototype" ∷ [])

-- `sanitizeInput`, with its loops over the items of an array and the entries of an object.
unfoldable mutual
  pub sanitize_input : Json → Json
  sanitize_input (array items) = array (sanitize_items items)
  sanitize_input (object fields) = object (sanitize_fields fields)
  sanitize_input json_null = json_null
  sanitize_input (boolean b) = boolean b
  sanitize_input (number n) = number n
  sanitize_input (text s) = text s

  pub sanitize_items : Items → Items
  sanitize_items end = end
  sanitize_items (item x rest) = item (sanitize_input x) (sanitize_items rest)

  pub sanitize_fields : Fields → Fields
  sanitize_fields empty = empty
  sanitize_fields (field key value rest) =
      let kept = sanitize_fields rest in
      let clean = sanitize_input value in if is_dangerous key then kept else field key clean kept

-- `sanitizeRequestBody`, up to `next`; `typeof` is 'object' for arrays and objects, and `null` is falsy.
abbrev pub sanitize_request_body : Option Json → Option Json
sanitize_request_body none = none
sanitize_request_body (some (array items)) = some (sanitize_input (array items))
sanitize_request_body (some (object fields)) = some (sanitize_input (object fields))
sanitize_request_body (some json_null) = some json_null
sanitize_request_body (some (boolean b)) = some (boolean b)
sanitize_request_body (some (number n)) = some (number n)
sanitize_request_body (some (text s)) = some (text s)
