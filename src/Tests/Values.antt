-- ===== src/Tests/Values.antt =====
-- The theorems on sanitising and redacting at small values.
use af_auth.Base.{◌≡◌, ◌↔◌, [], none, some}
use af_auth.Base.Eff.{ok, World}
use af_auth.Validation.{
  Json, text, object, empty, field, sanitize_input, json_null, sanitize_request_body,
}
use af_auth.Validation.Sanitize.{IsSafe, sanitize_input-IsSafe}
use af_auth.Validation.Middleware.{Schema, valid, zod_error, Validated, passed, receive_body}
use af_auth.Validation.Passed.{AllPresent, receive_body_iff}
use af_auth.Logger
use af_auth.Logger.{Logged, scalar, redact_sensitive_data, is_sensitive}

abbrev body : Json
body = object (field "__proto__" json_null (field "a" (text "b") empty))

sanitize_input-IsSafe_example :
    IsSafe (sanitize_input body)
    × ((sanitize_input body ≡ body) ↔ IsSafe body)
    × (sanitize_input (sanitize_input body) ≡ sanitize_input body)
sanitize_input-IsSafe_example = sanitize_input-IsSafe body

abbrev entry : Logged
entry = Logger.object 0 (
    Logger.field "user_password" (scalar "x")
      (Logger.field "ok" (Logger.object 0 Logger.empty) Logger.empty))

-- A schema that takes every body.
abbrev anything : Schema
anything none = zod_error []
anything (some v) = valid v

abbrev quiet : World (Unit {0})
quiet = record {
  db = tt;
  clock = λ n. 0;
  reads = 0;
  random = λ n. "";
  drawn = 0;
  metrics = [];
  key_cache = [];
}

receive_body_iff_example :
    ((a : Validated) × ((receive_body anything (some body) quiet).0 ≡ ok a))
    × (((receive_body anything (some body) quiet).0
          ≡ ok (passed (object (field "a" (text "b") empty))))
        ↔ (anything (sanitize_request_body (some body))
            ≡ valid (object (field "a" (text "b") empty))))
    × AllPresent IsSafe (sanitize_request_body (some body))
receive_body_iff_example =
    receive_body_iff anything (some body) (object (field "a" (text "b") empty)) quiet
