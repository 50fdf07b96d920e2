-- ===== src/Apierror/Write.antt =====
-- internal/core/apierror/write.go: an error as the answer to a request and as a line of the log.
use weave_adapters.Prelude.Text.{Text, text}
use weave_adapters.Prelude.{ℕ, Bool, ◌&&◌, Option, none, some, List, [], ltb, if◌then◌else◌}
use weave_adapters.Events.{
  Event, Events, get, Caller, Context, caller_from, ensure_caller, Line, emit,
}
use weave_adapters.Apierror.{
  lookup, code_internal, internal_meaning, type_for, FieldError, ApiError, internal, truncate_path,
  render,
}
use weave_adapters.Http.Writer.{Response, write_header, write, with_header, set}

pub record Problem : Type 0 where
  pub type : Text
  pub title : Text
  pub status : ℕ
  pub detail : Text
  pub instance_path : Text
  pub request_id : Text
  pub backend_error : Text
  pub errors : List FieldError

-- What is read of a request: `done` is whether its context has ended.
pub record Request : Type 0 where
  pub method : Text
  pub path : Text
  pub remote_addr : Text
  pub context : Context
  pub done : Bool

-- An error of Go: one that wraps an `ApiError`, or another one by its text; either may wrap
-- `context.Canceled`.
pub data Failure : Type 0 where
  api_failure : Bool → ApiError → Failure
  other_failure : Bool → Text → Failure

-- `errors.Is(err, context.Canceled)`
abbrev pub is_canceled : Failure → Bool
is_canceled (api_failure c e) = c
is_canceled (other_failure c m) = c

-- `asError`
unfoldable pub as_error : Failure → ApiError
as_error (api_failure c e) = e
as_error (other_failure c m) = internal (some m)

-- `FallbackCaller`
abbrev pub fallback_caller : Request → Caller
fallback_caller r = record {
  subject = [];
  role = [];
  remote_addr = r.remote_addr;
  request_id = [];
  method = r.method;
  path = truncate_path r.path;
}

abbrev pub problem_of : ApiError → Request → Option Event → Problem
problem_of e r none = record {
  type = type_for code_internal;
  title = internal_meaning.title;
  status = 500;
  detail = text "An unexpected error occurred.";
  instance_path = truncate_path r.path;
  request_id = (caller_from r.context).request_id;
  backend_error = [];
  errors = [];
}
problem_of e r (some spec) = record {
  type = type_for spec.response_code;
  title = (lookup spec.response_code).title;
  status = (lookup spec.response_code).status;
  detail = render spec.response_detail e.fields;
  instance_path = truncate_path r.path;
  request_id = (caller_from r.context).request_id;
  backend_error = e.backend_error;
  errors = e.field_errors;
}

-- `problem`
unfoldable pub problem : Events → ApiError → Request → Problem
problem s e r = problem_of e r (get e.event_id s)

abbrev pub content_type : Text
content_type = text "application/problem+json"

abbrev pub at_least_100 : Problem → Problem
at_least_100 p = if ltb p.status 100 then record p { status = 500 } else p

-- `WriteProblem`; `encode` is the JSON library's
unfoldable pub write_problem : (Problem → List ℕ) → Problem → Response → Response
write_problem encode p w =
    let q = at_least_100 p in
    write (encode q) (write_header q.status (with_header (set "Content-Type" content_type) w))

-- the response, with the line that was logged, if any; or a panic
pub data Written : Type 0 where
  written : Response → Option Line → Written
  panicked : Written

abbrev pub after_emit : Option Line → Response → Written
after_emit none w = panicked
after_emit (some l) w = written w (some l)

-- `WriteError`; `data` of the line are the error's fields, which the code sorts by their keys
unfoldable pub write_error : Events → (Problem → List ℕ) → Request → Failure → Response → Written
write_error s encode r err w =
    if r.done && is_canceled err
    then written w none
    else after_emit
        (emit s (ensure_caller (fallback_caller r) r.context) (as_error err).event_id
          (as_error err).fields)
        (write_problem encode (problem s (as_error err) r) w)
