-- ===== src/Dhcp/Update.antt =====
-- internal/adapters/dhcpwindows/update.go: a merge update, its validation alone and against the scope
-- that it changes, and the script's parameters. A pointer is an `Option`.
use weave_adapters.Prelude.Int.{ℤ, pos, negsuc}
use weave_adapters.Prelude.Text.{Text, is_blank, byte_len, contains}
use weave_adapters.Prelude.{
  ℕ, Bool, true, false, not, ◌||◌, Option, none, some, List, [], ◌∷◌, ◌++◌, String, ltb,
  if◌then◌else◌,
}
use weave_adapters.Dhcp.Addr.{Addr, parse_ip_v4}
use weave_adapters.Dhcp.Create.{
  FieldError, field_error, valid_states, valid_types, max_name_length, max_description_length,
  max_lease_duration_seconds, control_char_message, too_long_message, max_lease_message,
  states_message, types_message, has_control_chars, check_order, check_parsed,
}
use weave_adapters.Dhcp.Env.{
  Env, env_scope_id, env_scope_name, env_scope_start_range, env_scope_end_range,
  env_scope_description, env_scope_lease, env_scope_state, env_scope_type, set, set_provided, itoa,
}

-- `Scope` of scope.go
pub record Scope : Type 0 where
  pub wadapt_id : Text
  pub scope_id : Text
  pub subnet_mask : Text
  pub start_range : Text
  pub end_range : Text
  pub name : Text
  pub description : Text
  pub state : Text
  pub type : Text
  pub superscope_name : Text
  pub lease_duration_seconds : ℤ
  pub address_family : Text

pub record ScopeUpdate : Type 0 where
  pub name : Option Text
  pub description : Option Text
  pub lease_duration_seconds : Option ℤ
  pub state : Option Text
  pub type : Option Text
  pub start_range : Option Text
  pub end_range : Option Text

abbrev empty_message : String
empty_message = "must not be empty; omit to leave it unchanged"

unfoldable pub check_provided_text : String → ℕ → Option Text → List FieldError
check_provided_text f max none = []
check_provided_text f max (some s) =
    if is_blank s
    then field_error f empty_message ∷ []
    else if ltb max (byte_len s)
    then field_error f too_long_message ∷ []
    else if has_control_chars s
    then field_error f control_char_message ∷ []
    else []

abbrev pub validate_text : ScopeUpdate → List FieldError
validate_text inp =
    check_provided_text "name" max_name_length inp.name
    ++ check_provided_text "description" max_description_length inp.description

unfoldable pub check_provided_lease : Option ℤ → List FieldError
check_provided_lease none = []
check_provided_lease (some (negsuc n)) =
    field_error "leaseDurationSeconds" "must be a positive number of seconds" ∷ []
check_provided_lease (some (pos n)) =
    if not (ltb 0 n)
    then field_error "leaseDurationSeconds" "must be a positive number of seconds" ∷ []
    else if ltb max_lease_duration_seconds n
    then field_error "leaseDurationSeconds" max_lease_message ∷ []
    else []

unfoldable pub check_provided_listed : String → String → List Text → Option Text → List FieldError
check_provided_listed f message valid none = []
check_provided_listed f message valid (some s) =
    if not (contains valid s) then field_error f message ∷ [] else []

abbrev pub validate_options : ScopeUpdate → List FieldError
validate_options inp =
    check_provided_lease inp.lease_duration_seconds
    ++ check_provided_listed "state" states_message valid_states inp.state
    ++ check_provided_listed "type" types_message valid_types inp.type

-- `parseProvidedIPv4`, and the error where an address was provided and does not parse
unfoldable pub check_provided : String → Option Text → List FieldError
check_provided f none = []
check_provided f (some s) = check_parsed f (parse_ip_v4 s)

unfoldable pub check_both : Option Addr → Option Addr → List FieldError
check_both (some start) (some end_) = check_order start end_
check_both _ _ = []

-- the order of the two ends, where both are provided and parse
unfoldable pub check_provided_order : Option Text → Option Text → List FieldError
check_provided_order (some s) (some e) = check_both (parse_ip_v4 s) (parse_ip_v4 e)
check_provided_order _ _ = []

abbrev pub validate_range : ScopeUpdate → List FieldError
validate_range inp =
    check_provided "startRange" inp.start_range
    ++ check_provided "endRange" inp.end_range
    ++ check_provided_order inp.start_range inp.end_range

unfoldable pub validate : ScopeUpdate → List FieldError
validate inp = validate_text inp ++ validate_options inp ++ validate_range inp

unfoldable pub effective : Option Text → Text → Text
effective none existing = existing
effective (some v) existing = v

abbrev pub is_provided : Option Text → Bool
is_provided none = false
is_provided (some v) = true

abbrev pub changes_range : ScopeUpdate → Bool
changes_range inp = is_provided inp.start_range || is_provided inp.end_range

unfoldable pub set_lease : Option ℤ → Env → Env
set_lease none env = env
set_lease (some n) env = set env_scope_lease (itoa n) env

-- `ScopeUpdate.env`
unfoldable pub update_env : ScopeUpdate → Scope → Env
update_env inp existing =
    let named = set_provided env_scope_name inp.name (set env_scope_id existing.scope_id []) in
    let described = set_provided env_scope_description inp.description named in
    let stated = set_provided env_scope_state inp.state described in
    let typed = set_provided env_scope_type inp.type stated in
    let leased = set_lease inp.lease_duration_seconds typed in
    if changes_range inp
    then set env_scope_end_range (effective inp.end_range existing.end_range)
        (set env_scope_start_range (effective inp.start_range existing.start_range) leased)
    else leased
