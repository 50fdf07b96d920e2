-- ===== src/Dhcp/EffectiveRange.antt =====
-- internal/adapters/dhcpwindows/update.go: `validateEffectiveRange` and its helpers, on the range that
-- an update would leave.
use weave_adapters.Prelude.Text.{Text, text, text_eq}
use weave_adapters.Prelude.{
  Bool, not, Option, none, some, List, [], ◌∷◌, ◌++◌, String, str_eq, if◌then◌else◌, contains_func,
}
use weave_adapters.Dhcp.Addr.{Addr, parse_ip_v4, network_of, addr_less}
use weave_adapters.Dhcp.Create.{FieldError, field_error, check_leasable_ends}
use weave_adapters.Dhcp.Update.{Scope, ScopeUpdate, effective, is_provided, changes_range}

unfoldable pub is_named : List FieldError → FieldError → Bool
is_named have e = contains_func have (λ h. str_eq h.field e.field)

unfoldable pub append_unnamed : List FieldError → List FieldError → List FieldError
append_unnamed into [] = into
append_unnamed into (e ∷ more) =
    append_unnamed (if is_named into e then into else into ++ e ∷ []) more

unfoldable pub inverted_range : ScopeUpdate → Addr → Addr → List FieldError
inverted_range inp start end_ =
    if not (addr_less end_ start)
    then []
    else if is_provided inp.end_range
    then field_error "endRange" "must not be before startRange" ∷ []
    else field_error "startRange" "must not be after endRange" ∷ []

abbrev pub outside_message : Scope → Text
outside_message existing =
    text "must be a leasable address inside the scope's existing subnet " ++ existing.scope_id

abbrev pub outside : String → Scope → List FieldError
outside f existing = record { field = f; message = outside_message existing } ∷ []

-- the loop's body, on one end
unfoldable pub check_end_inside : String → Scope → Addr → Option Addr → List FieldError
check_end_inside f existing mask none = outside f existing
check_end_inside f existing mask (some a) =
    if not (text_eq (network_of a mask) existing.scope_id) then outside f existing else []

-- what stands behind the loop
unfoldable pub check_ends :
    ScopeUpdate → Addr → Option Addr → Option Addr → List FieldError → List FieldError
check_ends inp mask (some start) (some end_) offending =
    append_unnamed (append_unnamed offending (check_leasable_ends start end_ mask))
      (inverted_range inp start end_)
check_ends inp mask _ _ offending = offending

unfoldable pub check_effective :
    ScopeUpdate → Scope → Addr → Option Addr → Option Addr → List FieldError
check_effective inp existing mask start end_ = check_ends inp mask start end_ (
    check_end_inside "startRange" existing mask start
    ++ check_end_inside "endRange" existing mask end_)

-- `none` is the error for an existing mask that does not parse.
unfoldable pub validate_effective_range : ScopeUpdate → Scope → Option (List FieldError)
validate_effective_range inp existing =
    if not (changes_range inp) then some [] else elim (parse_ip_v4 existing.subnet_mask) [
      | none ↦ none
      | some mask ↦ some (
          check_effective inp existing mask
            (parse_ip_v4 (effective inp.start_range existing.start_range))
            (parse_ip_v4 (effective inp.end_range existing.end_range)))
    ]
