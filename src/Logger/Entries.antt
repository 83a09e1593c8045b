-- ===== src/Logger/Entries.antt =====
-- src/utils/logger.ts: what is redacted of an entry before pino has it: the hook on every call of a
-- method of the logger, the serializers of a request and of its response, and the fields of a child
-- logger.
use af_auth.Base.{List, [], ◌∷◌, map}
use af_auth.Logger.{Logged, scalar, array, object, Printed, redact_sensitive_data}
use af_auth.Logger.Redaction.{IsRedacted, redact_sensitive_data-IsRedacted}

-- An argument as it came, or redacted.
pub data PassedArg : Type 0 where
  untouched : Logged → PassedArg
  redacted : Printed → PassedArg

abbrev pub redact_all : Logged → Printed
redact_all x = (redact_sensitive_data x []).0

-- `typeof arg === 'object'`; `null` is one too, and its redaction is itself.
abbrev pub pass_first : Logged → PassedArg
pass_first (scalar s) = untouched (scalar s)
pass_first (array id items) = redacted (redact_all (array id items))
pass_first (object id fields) = redacted (redact_all (object id fields))

-- `hooks.logMethod`: what the method is applied to.
unfoldable pub log_method : List Logged → List PassedArg
log_method [] = []
log_method (x ∷ []) = untouched x ∷ []
log_method (x ∷ y ∷ rest) = pass_first x ∷ map untouched (y ∷ rest)

pub record LoggedRequest : Type 0 where
  pub id : Logged
  pub method : Logged
  pub url : Logged
  pub query : Logged
  pub params : Logged
  pub headers : Logged
  pub remote_address : Logged
  pub remote_port : Logged

pub record PrintedRequest : Type 0 where
  pub id : Logged
  pub method : Logged
  pub url : Logged
  pub query : Printed
  pub params : Printed
  pub headers : Printed
  pub remote_address : Logged
  pub remote_port : Logged

-- `serializers.req`
unfoldable pub serialize_req : LoggedRequest → PrintedRequest
serialize_req req = record {
  id = req.id;
  method = req.method;
  url = req.url;
  query = redact_all req.query;
  params = redact_all req.params;
  headers = redact_all req.headers;
  remote_address = req.remote_address;
  remote_port = req.remote_port;
}

pub record LoggedResponse : Type 0 where
  pub status_code : Logged
  pub headers : Logged

pub record PrintedResponse : Type 0 where
  pub status_code : Logged
  pub headers : Printed

-- `serializers.res`
unfoldable pub serialize_res : LoggedResponse → PrintedResponse
serialize_res res = record { status_code = res.status_code; headers = redact_all res.headers }

-- `createLogger`: the fields that the child logger adds to each entry.
unfoldable pub create_logger : Logged → Printed
create_logger bindings = redact_all bindings

-- A scalar as it came, or a redacted value.
unfoldable pub IsHidden : PassedArg → Type 0
IsHidden (untouched (scalar s)) = Unit
IsHidden (untouched (array id items)) = ⊥
IsHidden (untouched (object id fields)) = ⊥
IsHidden (redacted x) = IsRedacted x

-- The query, the parameters and the headers of a logged request, the headers of a logged response and
-- the fields of a child logger are printed with each sensitive field as "[REDACTED]".
pub serialized-IsRedacted :
    (req : LoggedRequest) (res : LoggedResponse) (bindings : Logged)
    → (IsRedacted (serialize_req req).query
        × (IsRedacted (serialize_req req).params × IsRedacted (serialize_req req).headers))
      × (IsRedacted (serialize_res res).headers × IsRedacted (create_logger bindings))
unfolding serialize_req serialize_res create_logger
serialized-IsRedacted req res bindings =
    let hidden : (x : Logged) → IsRedacted (redact_all x) =
      λ x. redact_sensitive_data-IsRedacted x [] in
    (
      (hidden req.query, (hidden req.params, hidden req.headers)),
      (hidden res.headers, hidden bindings),
    )
