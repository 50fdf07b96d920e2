-- ===== src/Events.antt =====
-- internal/core/events/event.go, registry.go, emit.go and context.go: the catalog of events, and what
-- emitting one comes to. Of an `Event` the fields that only documentation reads are left out; the hook of
-- the tests is not set.

pub mod Catalog
pub mod Registry
mod Tests
use weave_adapters.Prelude.Text.{Text, text, text_eq, is_blank, contains}
use weave_adapters.Prelude.{
  ℕ, Bool, true, false, not, ◌&&◌, ◌||◌, Option, none, some, List, [], ◌∷◌, map, ltb, ◌==◌,
  if◌then◌else◌,
}

pub data Level : Type 0 where
  debug info warn error : Level

pub record FieldDef : Type 0 where
  pub name : Text
  pub type_name : Text
  pub required : Bool
  pub event_log_omit : Bool

pub record Event : Type 0 where
  pub id : Text
  pub level : Level
  pub message_template : Text
  pub fields : List FieldDef
  pub external_source : Bool
  pub event_log_id : ℕ
  pub response_detail : Text
  pub response_code : Text

abbrev pub max_event_log_id : ℕ
max_event_log_id = 1000

-- the map of the registry: an event under its own ID
abbrev pub Events : Type 0
Events = List Event

-- `Get`
unfoldable pub get : Text → Events → Option Event
get id [] = none
get id (e ∷ s) = if text_eq e.id id then some e else get id s

-- `standardCallerFields`
abbrev pub standard_caller_fields : List Text
standard_caller_fields = text "subject" ∷ text "role" ∷ text "remoteAddr" ∷ []

abbrev pub field_names : List FieldDef → List Text
field_names [] = []
field_names (f ∷ fs) = f.name ∷ field_names fs

unfoldable pub has_all : List Text → List Text → Bool
has_all [] names = true
has_all (r ∷ required) names = contains names r && has_all required names

-- the loop over the other events in `Register`
unfoldable pub is_claimed : ℕ → Events → Bool
is_claimed n [] = false
is_claimed n (e ∷ s) = e.event_log_id == n || is_claimed n s

abbrev pub is_known : Option Event → Bool
is_known none = false
is_known (some e) = true

abbrev pub is_refused_by_log : Event → Events → Bool
is_refused_by_log e s =
    if e.event_log_id == 0
    then false
    else if ltb max_event_log_id e.event_log_id
    then true
    else if is_claimed e.event_log_id s
    then true
    else e.external_source

-- `Register`; `none` is a panic
unfoldable pub register : Event → Events → Option Events
register e s =
    if is_known (get e.id s)
    then none
    else if not (is_blank e.response_detail) && is_blank e.response_code
    then none
    else if is_refused_by_log e s
    then none
    else if e.external_source && not (has_all standard_caller_fields (field_names e.fields))
    then none
    else some (e ∷ s)

pub record Caller : Type 0 where
  pub subject : Text
  pub role : Text
  pub remote_addr : Text
  pub request_id : Text
  pub method : Text
  pub path : Text

-- what a context holds of a caller; `SetIdentity` writes into the shared one
abbrev pub Context : Type 0
Context = Option Caller

abbrev pub no_caller : Caller
no_caller = record {
  subject = [];
  role = [];
  remote_addr = [];
  request_id = [];
  method = [];
  path = [];
}

-- `WithCaller`
abbrev pub with_caller : Caller → Context → Context
with_caller c ctx = some c

-- `CallerFrom`
abbrev pub caller_from : Context → Caller
caller_from none = no_caller
caller_from (some c) = c

-- `EnsureCaller`
unfoldable pub ensure_caller : Caller → Context → Context
ensure_caller fallback ctx =
    if not (is_blank (caller_from ctx).remote_addr) then ctx else with_caller fallback ctx

-- `SetIdentity`: the context, and whether it held a caller
unfoldable pub set_identity : Text → Text → Context → Context × Bool
set_identity subject role none = (none, false)
set_identity subject role (some c) = (some (record c { subject = subject; role = role }), true)

-- A line of the log: an event, with its caller where it has one, and its data.
pub data Line : Type 0 where
  unknown_event : Text → List (Text × Text) → Line
  logged : Event → Option Caller → List (Text × Text) → Line

abbrev pub emit_known : Context → List (Text × Text) → Event → Option Line
emit_known ctx fields e =
    if not e.external_source
    then some (logged e none fields)
    else if is_blank (caller_from ctx).remote_addr
    then none
    else some (logged e (some (caller_from ctx)) fields)

abbrev pub emit_found : Context → Text → List (Text × Text) → Option Event → Option Line
emit_found ctx id fields none = some (unknown_event id fields)
emit_found ctx id fields (some e) = emit_known ctx fields e

-- `Emit`; `none` is a panic
unfoldable pub emit : Events → Context → Text → List (Text × Text) → Option Line
emit s ctx id fields = emit_found ctx id fields (get id s)
