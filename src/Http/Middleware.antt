-- ===== src/Http/Middleware.antt =====
-- internal/core/middleware: recovery.go, requestid.go, logging.go and chain.go. A handler is the calls that it
-- makes, and how it ends; durations and the stack of a panic are not in the model.
use weave_adapters.Prelude.Text.{Text, text, is_blank, byte_len}
use weave_adapters.Prelude.{
  ℕ, Bool, true, false, ◌||◌, Option, none, some, List, [], ◌∷◌, String, ltb, if◌then◌else◌,
}
use weave_adapters.Events.{Events, with_caller, Line, emit}
use weave_adapters.Apierror.{type_for, title_for, code_internal, truncate_path}
use weave_adapters.Apierror.Write.{Problem, Request, write_problem}
use weave_adapters.Http.Writer.{Response, Call, get, set, with_header}
use weave_adapters.Http.Recorder.{Recorder, new_recorder, record_calls}

-- how a handler ends: it returns, or panics with `http.ErrAbortHandler`, or with a value by its text
pub data End : Type 0 where
  returns aborts : End
  panics : Text → End

pub record Run : Type 0 where
  pub calls : List Call
  pub end : End

-- How the server is left: the handler returns, the abort goes on, or `Emit` panicked in its turn.
pub data Left : Type 0 where
  returned aborted emit_panicked : Left

-- What the server sees: the response, the lines logged, and how it is left.
pub record Seen : Type 0 where
  pub response : Response
  pub lines : List Line
  pub left : Left

abbrev pub request_id_header : String
request_id_header = "X-Request-Id"

-- the data of `API-011`, less the stack
abbrev pub panic_fields : Request → Text → Text → List (Text × Text)
panic_fields r request_id value =
    (text "method", r.method)
    ∷ (text "path", truncate_path r.path)
    ∷ (text "remoteAddr", r.remote_addr)
    ∷ (text "requestId", request_id)
    ∷ (text "panic", value)
    ∷ []

abbrev pub panic_problem : Request → Recorder → Problem
panic_problem r rw = record {
  type = type_for code_internal;
  title = title_for code_internal;
  status = 500;
  detail = text "An unexpected error occurred.";
  instance_path = truncate_path r.path;
  request_id = get request_id_header rw.inner.header;
  backend_error = [];
  errors = [];
}

module _ (s : Events) (encode : Problem → List ℕ) where
  -- the deferred function of `Recovery` behind its `Emit`
  abbrev pub answered : Request → Recorder → Option Line → Seen
  answered r rw none = record { response = rw.inner; lines = []; left = emit_panicked }
  answered r rw (some line) = record {
    response = if rw.wrote then rw.inner else write_problem encode (panic_problem r rw) rw.inner;
    lines = line ∷ [];
    left = returned;
  }

  -- the deferred function of `Recovery`
  unfoldable pub recovered : Request → End → Recorder → Seen
  recovered r returns rw = record { response = rw.inner; lines = []; left = returned }
  recovered r aborts rw = record { response = rw.inner; lines = []; left = aborted }
  recovered r (panics value) rw = answered r rw (
      emit s r.context (text "API-011")
        (panic_fields r (get request_id_header rw.inner.header) value))

  -- `Recovery`
  unfoldable pub recovery : Request → Run → Response → Seen
  recovery r run w = recovered r run.end (record_calls run.calls (new_recorder w))

abbrev pub max_inbound_request_id_len : ℕ
max_inbound_request_id_len = 128

unfoldable pub all_printable : Text → Bool
all_printable [] = true
all_printable (c ∷ cs) = if ltb c 0x20 || ltb 0x7E c then false else all_printable cs

-- `usableRequestID`; a byte of a character beyond ASCII is above 0x7E, as the character is
unfoldable pub usable_request_id : Text → Bool
usable_request_id id =
    if is_blank id || ltb max_inbound_request_id_len (byte_len id) then false else all_printable id

abbrev pub request_id_of : Text → Text → Text
request_id_of inbound fresh = if usable_request_id inbound then inbound else fresh

-- `RequestID`, up to the next handler: the request and the response that this gets. `inbound` is the header
-- of the request, `fresh` a new UUID.
unfoldable pub with_request_id : Text → Text → Request → Response → Request × Response
with_request_id inbound fresh r w =
    let id = request_id_of inbound fresh in
    (
      record r {
        context =
            with_caller
              (record {
                subject = [];
                role = [];
                remote_addr = r.remote_addr;
                request_id = id;
                method = r.method;
                path = truncate_path r.path;
              })
              r.context;
      },
      with_header (set request_id_header id) w,
    )

-- `Chain`, on any handlers
unfoldable pub chain {ℓ} : {H : Type ℓ} → H → List (H → H) → H
chain h [] = h
chain h (m ∷ ms) = m (chain h ms)
