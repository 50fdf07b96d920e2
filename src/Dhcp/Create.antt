-- ===== src/Dhcp/Create.antt =====
-- internal/adapters/dhcpwindows/create.go: `ScopeInput`, its validation, the identity that it
-- describes and the script's parameters. A field's text is a list of code points.
use weave_adapters.Prelude.Int.{ℤ, pos, negsuc}
use weave_adapters.Prelude.Text.{
  Text, text, text_eq, is_blank, byte_len, contains_control, contains,
}
use weave_adapters.Prelude.{
  ℕ, Bool, not, ◌&&◌, Option, none, some, List, [], ◌∷◌, ◌++◌, String, ltb, if◌then◌else◌,
}
use weave_adapters.Dhcp.Addr.{
  Addr, parse_ip_v4, network_of, network_addr, broadcast_addr, addr_less, addr_eq,
  has_host_addresses, is_contiguous_mask,
}

-- `apierror.FieldError`
pub record FieldError : Type 0 where
  pub field : String
  pub message : Text

unfoldable pub field_error : String → String → FieldError
field_error f m = record { field = f; message = text m }

pub record ScopeInput : Type 0 where
  pub name : Text
  pub start_range : Text
  pub end_range : Text
  pub subnet_mask : Text
  pub description : Text
  pub lease_duration_seconds : ℤ
  pub state : Text
  pub type : Text

abbrev pub valid_states : List Text
valid_states = text "Active" ∷ text "Inactive" ∷ []

abbrev pub valid_types : List Text
valid_types = text "Dhcp" ∷ text "Bootp" ∷ text "Both" ∷ []

abbrev pub max_name_length : ℕ
max_name_length = 255

abbrev pub max_description_length : ℕ
max_description_length = 255

abbrev pub max_lease_duration_seconds : ℕ
max_lease_duration_seconds = 2147483647

abbrev pub control_char_message : String
control_char_message = "must not contain control characters"

abbrev pub too_long_message : String
too_long_message = "must be at most 255 characters"

abbrev pub max_lease_message : String
max_lease_message = "must be at most 2147483647"

unfoldable pub has_control_chars : Text → Bool
has_control_chars s = contains_control s

-- the two switches of `validateText`
unfoldable pub check_name : Text → List FieldError
check_name s =
    if is_blank s
    then field_error "name" "is required" ∷ []
    else if ltb max_name_length (byte_len s)
    then field_error "name" too_long_message ∷ []
    else if has_control_chars s
    then field_error "name" control_char_message ∷ []
    else []

unfoldable pub check_description : Text → List FieldError
check_description s =
    if ltb max_description_length (byte_len s)
    then field_error "description" too_long_message ∷ []
    else if has_control_chars s
    then field_error "description" control_char_message ∷ []
    else []

abbrev pub validate_text : ScopeInput → List FieldError
validate_text inp = check_name inp.name ++ check_description inp.description

-- the error where an address does not parse
unfoldable pub check_parsed : String → Option Addr → List FieldError
check_parsed f none = field_error f "must be an IPv4 address" ∷ []
check_parsed f (some a) = []

-- the switch on the mask: the errors, and the mask where `maskOK` stays true
unfoldable pub check_mask : Option Addr → List FieldError × Option Addr
check_mask none = (field_error "subnetMask" "must be an IPv4 address" ∷ [], none)
check_mask (some m) =
    if not (is_contiguous_mask m)
    then (
      field_error "subnetMask" "must be a contiguous subnet mask, e.g. 255.255.255.0" ∷ [],
      none,
    )
    else if not (has_host_addresses m)
    then (
      field_error "subnetMask"
            "must leave at least two host addresses; /31 and /32 describe no leasable range"
          ∷ [],
      none,
    )
    else ([], some m)

unfoldable pub check_start : Addr → Addr → List FieldError
check_start start mask =
    if addr_eq start (network_addr start mask)
    then field_error "startRange" "must not be the subnet's network address" ∷ []
    else []

unfoldable pub check_end : Addr → Addr → List FieldError
check_end end_ mask =
    if addr_eq end_ (broadcast_addr end_ mask)
    then field_error "endRange" "must not be the subnet's broadcast address" ∷ []
    else []

unfoldable pub check_leasable_ends : Addr → Addr → Addr → List FieldError
check_leasable_ends start end_ mask = check_start start mask ++ check_end end_ mask

unfoldable pub check_order : Addr → Addr → List FieldError
check_order start end_ =
    if addr_less end_ start then field_error "endRange" "must not be before startRange" ∷ [] else []

unfoldable pub check_same_subnet : Addr → Addr → Addr → List FieldError
check_same_subnet start end_ mask =
    if not (text_eq (network_of start mask) (network_of end_ mask))
    then field_error "endRange" "must be in the same subnet as startRange under subnetMask" ∷ []
    else []

-- what `validateAddressing` does behind its two early returns
unfoldable pub check_subnet : Addr → Addr → Option Addr → List FieldError
check_subnet start end_ none = []
check_subnet start end_ (some mask) =
    check_same_subnet start end_ mask ++ check_leasable_ends start end_ mask

unfoldable pub check_range : Option Addr → Option Addr → Option Addr → List FieldError
check_range (some start) (some end_) mask = check_order start end_ ++ check_subnet start end_ mask
check_range _ _ mask = []

abbrev pub validate_addressing : ScopeInput → List FieldError
validate_addressing inp =
    let start = parse_ip_v4 inp.start_range in
    let end_ = parse_ip_v4 inp.end_range in
    let mask = check_mask (parse_ip_v4 inp.subnet_mask) in
    check_parsed "startRange" start
    ++ check_parsed "endRange" end_
    ++ mask.0
    ++ check_range start end_ mask.1

unfoldable pub check_lease : ℤ → List FieldError
check_lease (negsuc n) = field_error "leaseDurationSeconds" "must not be negative" ∷ []
check_lease (pos n) =
    if ltb max_lease_duration_seconds n
    then field_error "leaseDurationSeconds" max_lease_message ∷ []
    else []

abbrev pub states_message : String
states_message = "must be one of Active, Inactive"

abbrev pub types_message : String
types_message = "must be one of Dhcp, Bootp, Both"

unfoldable pub check_listed : String → String → List Text → Text → List FieldError
check_listed f message valid s =
    if not (is_blank s) && not (contains valid s) then field_error f message ∷ [] else []

abbrev pub validate_options : ScopeInput → List FieldError
validate_options inp =
    check_lease inp.lease_duration_seconds
    ++ check_listed "state" states_message valid_states inp.state
    ++ check_listed "type" types_message valid_types inp.type

unfoldable pub validate : ScopeInput → List FieldError
validate inp = validate_text inp ++ validate_addressing inp ++ validate_options inp

-- `ScopeID`, `none` being its error
unfoldable pub scope_id : ScopeInput → Option Text
scope_id inp = elim (parse_ip_v4 inp.start_range) [
  | none ↦ none
  | some start ↦ elim (parse_ip_v4 inp.subnet_mask) [
    | none ↦ none
    | some mask ↦ some (network_of start mask)
  ]
]
