-- ===== src/Dhcp/Tests.antt =====
-- One scope of a small server, created, resized and looked at.
use weave_adapters.Prelude.{
  ◌≡◌, ◌↔◌, ◌⊎◌, refl, true, false, none, some, List, [], ◌∷◌, ◌++◌, arith, map, All, if◌then◌else◌,
}
use weave_adapters.Prelude.Int.{pos}
use weave_adapters.Prelude.Text.{
  text, text_eq, contains, trim_left, trim_right, trim_space, cut_line,
}
use weave_adapters.Dhcp.Addr.{
  Addr, fields, parse_ip_v4, addr_string, network_addr, network_of, broadcast_addr, addr_eq,
  has_host_addresses, is_contiguous_mask,
}
use weave_adapters.Dhcp.RoundTrip.{IsAddr}
use weave_adapters.Dhcp.Masks.{IsSubnetMask, is_contiguous_mask_iff}
use weave_adapters.Dhcp.Create.{
  FieldError, field_error, ScopeInput, has_control_chars, check_name, check_description,
  check_parsed, check_mask, check_start, check_end, check_leasable_ends, check_order,
  check_same_subnet, check_subnet, check_range, check_lease, check_listed, validate, scope_id,
}
use weave_adapters.Dhcp.ValidInput.{IsValidInput, validate_iff}
use weave_adapters.Dhcp.Update.{Scope, ScopeUpdate, effective, changes_range}
use weave_adapters.Dhcp.EffectiveRange.{
  is_named, append_unnamed, inverted_range, outside_message, check_end_inside, check_ends,
  check_effective, validate_effective_range,
}
use weave_adapters.Dhcp.NamesOnce.{NamesOnce, validate_effective_range-NamesOnce}
use weave_adapters.Dhcp.Resize.{Resizes, validate_effective_range_iff}
use weave_adapters.Dhcp.Drift.{
  fingerprint_of, fingerprint_eq, last_seen, record_seen, report_of, observe,
}
use weave_adapters.Dhcp.Ledger.{latest, observe-latest, IsKnown, AreDistinct, observe-none}
use weave_adapters.Dhcp.Client.{
  Script, Run, Backend, State, run_error, is_valid_scope, validate_scopes, decoded, with_identity,
  has_id, find_scope, insert_scope, sort_scopes, conflict_payload, decode_scopes, identify_from,
  identify, identified, exactly_one, one_of, stamp, decode_one, stdout, scopes, ok,
  update_scope_script,
}
use weave_adapters.Dhcp.Operations.{
  or_fail, observed, report_drift, run_script, list_scopes, found, resolve_scope, updated,
  apply_update, update_scope, created, create_output, create_at, create_scope,
}
use weave_adapters.Dhcp.Identities.{AreIdentified, identify-AreIdentified}
use weave_adapters.Dhcp.Promises.{
  IsUpdated, update_scope-IsUpdated, IsCreated, create_scope-IsCreated,
}

abbrev lab_input : ScopeInput
lab_input = record {
  name = text "lab";
  start_range = text "10.0.30.10";
  end_range = text "10.0.30.250";
  subnet_mask = text "255.255.255.0";
  description = [];
  lease_duration_seconds = pos 3600;
  state = text "Active";
  type = [];
}

lab_input-accepted : validate lab_input ≡ []
unfolding validate parse_ip_v4 fields text text_eq network_of addr_string network_addr
    broadcast_addr addr_eq is_contiguous_mask has_host_addresses check_name has_control_chars
    check_description check_parsed check_mask check_range check_order check_subnet check_same_subnet
    check_end check_leasable_ends check_lease check_listed check_start field_error contains
lab_input-accepted = refl

validate_iff_example : (validate lab_input ≡ []) ↔ IsValidInput lab_input
validate_iff_example = validate_iff lab_input

-- the scope that the server has, as its scripts print it, and as the client serves it
abbrev lab_printed : Scope
lab_printed = record {
  wadapt_id = [];
  scope_id = text "10.0.30.0";
  subnet_mask = text "255.255.255.0";
  start_range = text "10.0.30.10";
  end_range = text "10.0.30.250";
  name = text "lab";
  description = [];
  state = text "Active";
  type = text "Dhcp";
  superscope_name = [];
  lease_duration_seconds = pos 3600;
  address_family = [];
}

abbrev resized_printed : Scope
resized_printed = record {
  wadapt_id = [];
  scope_id = text "10.0.30.0";
  subnet_mask = text "255.255.255.0";
  start_range = text "10.0.30.10";
  end_range = text "10.0.30.99";
  name = text "lab";
  description = [];
  state = text "Active";
  type = text "Dhcp";
  superscope_name = [];
  lease_duration_seconds = pos 3600;
  address_family = [];
}

abbrev shrink : ScopeUpdate
shrink = record {
  name = none;
  description = none;
  lease_duration_seconds = none;
  state = none;
  type = none;
  start_range = none;
  end_range = some (text "10.0.30.99");
}

-- an end before the scope's start, and outside its subnet
abbrev misplaced : ScopeUpdate
misplaced = record {
  name = none;
  description = none;
  lease_duration_seconds = none;
  state = none;
  type = none;
  start_range = none;
  end_range = some (text "10.0.29.9");
}

-- a server that prints "r" for an update and "l" for the other scripts
abbrev print : Script → Run
print update_scope_script = stdout (text "r")
print _ = stdout (text "l")

abbrev server : Backend Unit
server = record {
  runner = λ script env w. (w, print script);
  unmarshal = λ out.
      if text_eq out (text "r") then scopes (resized_printed ∷ []) else scopes (lab_printed ∷ []);
  derive_wadapt_id = λ id. text "w" ++ id;
}

abbrev empty_state : State Unit
empty_state = record { world = tt; drift = []; events = [] }

abbrev lab : Scope
lab = with_identity (text "w10.0.30.0") lab_printed

abbrev resized : Scope
resized = with_identity (text "w10.0.30.0") resized_printed

abbrev looked : State Unit
looked = record { world = tt; drift = (observe [] (lab ∷ [])).0; events = [] }

abbrev relooked : State Unit
relooked = record { world = tt; drift = (observe looked.drift (resized ∷ [])).0; events = [] }

created-lab : create_scope server lab_input empty_state ≡ (looked, ok lab)
unfolding create_scope create_at create_output created update_scope resolve_scope list_scopes
    run_script or_fail run_error found find_scope apply_update updated observed report_drift
    decode_one stamp one_of exactly_one decode_scopes decoded validate_scopes is_valid_scope
    identified identify identify_from has_id with_identity conflict_payload sort_scopes insert_scope
    trim_space trim_left trim_right cut_line scope_id observe report_of last_seen record_seen
    fingerprint_of fingerprint_eq parse_ip_v4 fields text text_eq network_of addr_string
    network_addr broadcast_addr addr_eq is_contiguous_mask has_host_addresses
created-lab = refl

updated-lab : update_scope server (text "w10.0.30.0") shrink empty_state ≡ (relooked, ok resized)
unfolding update_scope create_at create_output created resolve_scope list_scopes run_script or_fail
    run_error found find_scope apply_update updated observed report_drift decode_one stamp one_of
    exactly_one decode_scopes decoded validate_scopes is_valid_scope identified identify
    identify_from has_id with_identity conflict_payload sort_scopes insert_scope trim_space
    trim_left trim_right cut_line scope_id observe report_of last_seen record_seen fingerprint_of
    fingerprint_eq parse_ip_v4 fields text text_eq network_of addr_string network_addr
    broadcast_addr addr_eq is_contiguous_mask has_host_addresses validate_effective_range
    check_effective check_ends check_end_inside append_unnamed is_named inverted_range
    check_leasable_ends check_start check_end effective field_error
updated-lab = refl

create_scope-IsCreated_example : IsCreated server lab_input looked lab
create_scope-IsCreated_example =
    create_scope-IsCreated server lab_input empty_state looked lab created-lab

update_scope-IsUpdated_example :
    IsUpdated server (text "w10.0.30.0") shrink empty_state relooked resized
update_scope-IsUpdated_example =
    update_scope-IsUpdated server (text "w10.0.30.0") shrink empty_state relooked resized
      updated-lab

validate_effective_range_iff_example :
    (validate_effective_range shrink lab ≡ some [])
    ↔ ((changes_range shrink ≡ false) ⊎ Resizes shrink lab)
validate_effective_range_iff_example = validate_effective_range_iff shrink lab

abbrev complaints : List FieldError
complaints = record { field = "endRange"; message = outside_message lab } ∷ []

misplaced-complaints : validate_effective_range misplaced lab ≡ some complaints
unfolding validate_effective_range check_effective check_ends check_end_inside append_unnamed
    is_named inverted_range check_leasable_ends check_start check_end effective field_error
    parse_ip_v4 fields text text_eq network_of addr_string network_addr broadcast_addr addr_eq
    is_contiguous_mask has_host_addresses with_identity
misplaced-complaints = refl

validate_effective_range-NamesOnce_example : NamesOnce complaints
validate_effective_range-NamesOnce_example =
    validate_effective_range-NamesOnce misplaced lab misplaced-complaints

abbrev gateway : Addr
gateway = record { b₀ = 10; b₁ = 0; b₂ = 30; b₃ = 254 }

abbrev gateway-IsAddr : IsAddr gateway
gateway-IsAddr = record {
  byte₀ = omega arith;
  byte₁ = omega arith;
  byte₂ = omega arith;
  byte₃ = omega arith;
}

-- 255.0.255.0 has a hole
abbrev holed : Addr
holed = record { b₀ = 255; b₁ = 0; b₂ = 255; b₃ = 0 }

abbrev holed-IsAddr : IsAddr holed
holed-IsAddr = record {
  byte₀ = omega arith;
  byte₁ = omega arith;
  byte₂ = omega arith;
  byte₃ = omega arith;
}

is_contiguous_mask_iff_example :
    ((is_contiguous_mask holed ≡ true) × (has_host_addresses holed ≡ true)) ↔ IsSubnetMask holed
is_contiguous_mask_iff_example = is_contiguous_mask_iff holed holed-IsAddr

abbrev alone : AreDistinct (resized ∷ [])
alone = (tt, tt)

observe-none_example :
    ((observe looked.drift (resized ∷ [])).1 ≡ []) ↔ All (IsKnown looked.drift) (resized ∷ [])
observe-none_example = observe-none looked.drift (resized ∷ []) alone

-- the change of the range is reported
looked-drift :
    map (λ r. r.wadapt_id) (observe looked.drift (resized ∷ [])).1 ≡ text "w10.0.30.0" ∷ []
unfolding observe report_of last_seen record_seen fingerprint_of fingerprint_eq with_identity text
    text_eq
looked-drift = refl

observe-latest_example :
    last_seen (text "w10.0.30.0") (observe looked.drift (resized ∷ [])).0
    ≡ latest (text "w10.0.30.0") (last_seen (text "w10.0.30.0") looked.drift) (resized ∷ [])
observe-latest_example = observe-latest looked.drift (resized ∷ []) (text "w10.0.30.0")

abbrev class_c : Addr
class_c = record { b₀ = 255; b₁ = 255; b₂ = 255; b₃ = 0 }

abbrev class_c-IsAddr : IsAddr class_c
class_c-IsAddr = record {
  byte₀ = omega arith;
  byte₁ = omega arith;
  byte₂ = omega arith;
  byte₃ = omega arith;
}

identified-lab : identify server (lab_printed ∷ []) ≡ ok (lab ∷ [])
unfolding identify identify_from has_id text
identified-lab = refl

identify-AreIdentified_example : AreIdentified server [] (lab ∷ [])
identify-AreIdentified_example =
    identify-AreIdentified server (lab_printed ∷ []) (lab ∷ []) identified-lab
