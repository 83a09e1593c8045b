-- ===== src/Validation/Middleware.antt =====
-- src/middleware/validation.ts: the middlewares that validate a body or a query. A zod schema is a
-- parameter: it hands back a value, says what is wrong, or throws something else. Logging only prints.
use af_auth.Base.{ℕ, String, Option, List, [], ◌∷◌, map, ◌+++◌}
use af_auth.Base.Eff.{Thrown, Eff, pure, random_text, ◌>>=◌}
use af_auth.Validation.{Json, sanitize_request_body}

-- `ZodIssue`, without its code.
pub record Issue : Type 0 where
  pub path : List String
  pub message : String

-- What `schema.parse` does.
pub data Parsed : Type 0 where
  valid : Json → Parsed
  zod_error : List Issue → Parsed
  thrown : Thrown → Parsed

abbrev pub Schema : Type 0
Schema = Option Json → Parsed

-- The call of `next` with the new body or query, or the answer: its status, error, message, request
-- id and details.
pub data Validated : Type 0 where
  passed : Json → Validated
  refused : ℕ → String → String → String → List (String × String) → Validated

-- `issue.path.join('.')`
abbrev join_path : List String → String
join_path [] = ""
join_path (p ∷ []) = p
join_path (p ∷ q ∷ rest) = p +++ "." +++ join_path (q ∷ rest)

abbrev pub details_of : Issue → String × String
details_of i = (join_path i.path, i.message)

unfoldable pub answer_parsed : {S : Type 0} → String → Parsed → Eff S Validated
answer_parsed what (valid v) = pure (passed v)
answer_parsed what (zod_error issues) = do
  request_id ← random_text
  pure (refused 400 "VALIDATION_ERROR" what request_id (map details_of issues))
answer_parsed what (thrown e) = do
  request_id ← random_text
  pure (refused 500 "INTERNAL_ERROR" "An unexpected error occurred" request_id [])

module _ {S : Type 0} (schema : Schema) where
  unfoldable pub validate_body : Option Json → Eff S Validated
  validate_body body = answer_parsed "Invalid request data" (schema body)

  unfoldable pub validate_query : Option Json → Eff S Validated
  validate_query query = answer_parsed "Invalid query parameters" (schema query)

  -- What a route with a schema sees of a body, behind `sanitizeRequestBody` of src/server.ts.
  unfoldable pub receive_body : Option Json → Eff S Validated
  receive_body body = validate_body (sanitize_request_body body)
