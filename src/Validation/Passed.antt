-- ===== src/Validation/Passed.antt =====
-- What reaches a handler behind the sanitising and the validation.
use af_auth.Base.{String, ◌≡◌, ◌↔◌, refl, Option, none, some, arith}
use af_auth.Base.Eff.{ok, World}
use af_auth.Validation.{
  Json, array, object, json_null, boolean, number, text, sanitize_input, sanitize_request_body,
}
use af_auth.Validation.Sanitize.{IsSafe, sanitize_input-IsSafe}
use af_auth.Validation.Middleware.{
  Schema, Parsed, valid, zod_error, thrown, Validated, passed, answer_parsed, validate_body,
  receive_body,
}

abbrev pub AllPresent : (Json → Type 0) → Option Json → Type 0
AllPresent P none = Unit
AllPresent P (some v) = P v

sanitized_lem : (body : Option Json) → AllPresent IsSafe (sanitize_request_body body)
unfolding sanitize_input
sanitized_lem none = tt
sanitized_lem (some (array items)) = (sanitize_input-IsSafe (array items)).0
sanitized_lem (some (object fields)) = (sanitize_input-IsSafe (object fields)).0
sanitized_lem (some json_null) = (sanitize_input-IsSafe json_null).0
sanitized_lem (some (boolean b)) = (sanitize_input-IsSafe (boolean b)).0
sanitized_lem (some (number n)) = (sanitize_input-IsSafe (number n)).0
sanitized_lem (some (text s)) = (sanitize_input-IsSafe (text s)).0

answer_lem :
    {S : Type 0} (what : String) (x : Parsed) (v : Json) (w : World S)
    → ((answer_parsed what x w).0 ≡ ok (passed v)) ↔ (x ≡ valid v)
unfolding answer_parsed
answer_lem what (valid u) v w = ((λ h. ground arith), λ h. ground arith)
answer_lem what (zod_error issues) v w = ((λ h. absurd (ground arith)), λ h. absurd (ground arith))
answer_lem what (thrown e) v w = ((λ h. absurd (ground arith)), λ h. absurd (ground arith))

ends_lem :
    {S : Type 0} (what : String) (x : Parsed) (w : World S)
    → (a : Validated) × ((answer_parsed what x w).0 ≡ ok a)
unfolding answer_parsed
ends_lem what (valid u) w = (passed u, refl)
ends_lem what (zod_error issues) w = (_, refl)
ends_lem what (thrown e) w = (_, refl)

-- A route with a schema always answers or goes on. It goes on with a value exactly if the schema makes
-- that value of the sanitised body, and what the schema looks at has no dangerous property at any
-- depth.
pub receive_body_iff :
    {S : Type 0} (schema : Schema) (body : Option Json) (v : Json) (w : World S)
    → ((a : Validated) × ((receive_body schema body w).0 ≡ ok a))
      × (((receive_body schema body w).0 ≡ ok (passed v))
          ↔ (schema (sanitize_request_body body) ≡ valid v))
      × AllPresent IsSafe (sanitize_request_body body)
unfolding receive_body validate_body
receive_body_iff schema body v w = (
  ends_lem "Invalid request data" (schema (sanitize_request_body body)) w,
  answer_lem "Invalid request data" (schema (sanitize_request_body body)) v w,
  sanitized_lem body,
)
