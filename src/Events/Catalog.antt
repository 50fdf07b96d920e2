-- ===== src/Events/Catalog.antt =====
-- internal/core/events/catalog/api.go: the events of requests that get an error and API-011, as `init`
-- registers them.
use weave_adapters.Prelude.Text.{Text, text}
use weave_adapters.Prelude.{Bool, true, false, Option, none, some, List, [], ◌∷◌, ◌++◌}
use weave_adapters.Events.{Level, debug, warn, error, FieldDef, Event, Events, register}

abbrev field : Text → Text → Bool → FieldDef
field name type_name required = record {
  name = name;
  type_name = type_name;
  required = required;
  event_log_omit = false;
}

-- `CallerFields` of registry.go
abbrev pub caller_fields : List FieldDef
caller_fields =
    field (text "subject") (text "string") false
    ∷ field (text "role") (text "string") false
    ∷ field (text "remoteAddr") (text "string") true
    ∷ []

pub record ClientError : Type 0 where
  pub id : Text
  pub level : Level
  pub message : Text
  pub detail : Text
  pub code : Text
  pub fields : List FieldDef

abbrev client_error : Text → Level → Text → Text → Text → List FieldDef → ClientError
client_error id level message detail code fields = record {
  id = id;
  level = level;
  message = message;
  detail = detail;
  code = code;
  fields = fields;
}

abbrev pub client_errors : List ClientError
client_errors =
    client_error (text "API-020") warn (text "request rejected: no credential")
      (text "Authentication is required. Send 'Authorization: Bearer <token>'.")
      (text "unauthorized") ([])
    ∷ client_error (text "API-021") warn (text "request rejected: malformed credential")
        (text "Authorization must use the Bearer scheme, e.g. 'Authorization: Bearer <token>'.")
        (text "unauthorized") (field (text "scheme") (text "string") false ∷ [])
    ∷ client_error (text "API-022") warn (text "request rejected: unknown credential")
        (text "The bearer token is not valid.") (text "unauthorized") ([])
    ∷ client_error (text "API-023") warn (text "request rejected: expired credential")
        (text "The bearer token is not valid.") (text "unauthorized")
        (field (text "label") (text "string") true
          ∷ field (text "expiredAt") (text "string") true
          ∷ [])
    ∷ client_error (text "API-900") debug (text "request rejected: not found")
        (text "The requested {{resource}} was not found.") (text "not-found")
        (field (text "resource") (text "string") true ∷ [])
    ∷ client_error (text "API-902") debug (text "request rejected: method not allowed")
        (text "The {{method}} method is not allowed on this resource.") (text "method-not-allowed")
        (field (text "method") (text "string") true
          ∷ field (text "allow") (text "string") false
          ∷ [])
    ∷ client_error (text "API-903") debug (text "request rejected: validation failed")
        (text "The request has invalid parameters.") (text "validation-failed")
        (field (text "fields") (text "string") true ∷ [])
    ∷ client_error (text "API-904") debug (text "request rejected: body too large")
        (text "The request body exceeds the {{limitBytes}} byte limit.") (text "payload-too-large")
        (field (text "limitBytes") (text "int") true ∷ [])
    ∷ client_error (text "API-905") debug (text "request rejected: unsupported media type")
        (text "The request body must be sent as application/json.") (text "unsupported-media-type")
        (field (text "contentType") (text "string") false ∷ [])
    ∷ client_error (text "API-901") error (text "internal error")
        (text "An unexpected error occurred.") (text "internal")
        (field (text "error") (text "string") true ∷ [])
    ∷ []

abbrev pub event_of : ClientError → Event
event_of c = record {
  id = c.id;
  level = c.level;
  message_template = c.message;
  fields = caller_fields ++ c.fields;
  external_source = true;
  event_log_id = 0;
  response_detail = c.detail;
  response_code = c.code;
}

-- the loop of `init`; `none` is a panic
unfoldable pub register_all : List ClientError → Events → Option Events
register_all [] s = some s
register_all (c ∷ cs) s = elim (register (event_of c) s) [
  | none ↦ none
  | some t ↦ register_all cs t
]

-- the catalog with these events
unfoldable pub events_of : List ClientError → Events → Events
events_of [] s = s
events_of (c ∷ cs) s = events_of cs (event_of c ∷ s)

unfoldable pub client_events : Events
unfolding events_of
client_events = events_of client_errors []

-- `API011`, as `init` registers it
abbrev pub api_011 : Event
api_011 = record {
  id = text "API-011";
  level = error;
  message_template = text "request panic recovered";
  fields =
      field (text "method") (text "string") true
      ∷ field (text "path") (text "string") true
      ∷ field (text "remoteAddr") (text "string") true
      ∷ field (text "requestId") (text "string") false
      ∷ field (text "panic") (text "string") true
      ∷ record (field (text "stack") (text "string") false) { event_log_omit = true }
      ∷ [];
  external_source = false;
  event_log_id = 111;
  response_detail = [];
  response_code = [];
}
