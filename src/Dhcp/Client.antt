-- ===== src/Dhcp/Client.antt =====
-- internal/adapters/dhcpwindows/client.go, create.go and mutate.go: the operations of `Client`. The
-- runner (PowerShell), the JSON decoder and the keyed hash are parameters; an error is its sentinel
-- with what the caller reads of it, without the message. A deadline is the runner's timeout error.
use weave_adapters.Prelude.Text.{
  Text, text, text_eq, text_less, is_blank, trim_space, trim_left, cut_line,
}
use weave_adapters.Prelude.{
  ℕ, Bool, true, false, ◌||◌, ◌==◌, Option, none, some, List, [], ◌∷◌, if◌then◌else◌,
}
use weave_adapters.Dhcp.Addr.{parse_ip_v4}
use weave_adapters.Dhcp.Create.{FieldError}
use weave_adapters.Dhcp.Env.{Env}
use weave_adapters.Dhcp.Update.{Scope}
use weave_adapters.Dhcp.Drift.{DriftLedger, DriftReport}

pub data Err : Type 0 where
  backend_timeout backend_canceled backend_unavailable backend_malformed : Err
  duplicate_wadapt_id scope_not_found : Err
  scope_exists : Text → Scope → Err
  range_unusable : Text → List FieldError → Err

pub data Script : Type 0 where
  list_scopes_script create_scope_script delete_scope_script update_scope_script : Script

-- what `run` comes back with: its standard output, or an error before `runError`
pub data Run : Type 0 where
  stdout : Text → Run
  timed_out canceled exited : Run

-- what `json.Unmarshal` makes of an output
pub data Json : Type 0 where
  scopes : List Scope → Json
  null malformed : Json

-- the parameters of a client, over the state `W` of everything outside the process
pub record Backend (W : Type 0) : Type 0 where
  pub runner : Script → Env → W → W × Run
  pub unmarshal : Text → Json
  pub derive_wadapt_id : Text → Text

pub data Event : Type 0 where
  backend_101 : Script → Err → Event
  dhcp_002 : DriftReport → Event

-- the client's ledger, the events emitted, and the world
pub record State (W : Type 0) : Type 0 where
  pub world : W
  pub drift : DriftLedger
  pub events : List Event

pub data Answer (A : Type 0) : Type 0 where
  ok : A → Answer A
  err : Err → Answer A

-- `runError`
unfoldable pub run_error : Run → Answer Text
run_error (stdout t) = ok t
run_error timed_out = err backend_timeout
run_error canceled = err backend_canceled
run_error exited = err backend_unavailable

-- `validateScope`
unfoldable pub is_valid_scope : Scope → Bool
is_valid_scope s = elim (parse_ip_v4 s.scope_id) [ none ↦ false | some a ↦ true ]

unfoldable pub validate_scopes : List Scope → Answer (List Scope)
validate_scopes [] = ok []
validate_scopes (s ∷ ss) = elim (validate_scopes ss) [
  | err e ↦ err e
  | ok rest ↦ if is_valid_scope s then ok (s ∷ rest) else err backend_malformed
]

-- `decodeScopes`
unfoldable pub decoded : Json → Answer (List Scope)
decoded (scopes ss) = validate_scopes ss
decoded null = err backend_malformed
decoded malformed = err backend_malformed

unfoldable pub with_identity : Text → Scope → Scope
with_identity id s = record {
  wadapt_id = id;
  scope_id = s.scope_id;
  subnet_mask = s.subnet_mask;
  start_range = s.start_range;
  end_range = s.end_range;
  name = s.name;
  description = s.description;
  state = s.state;
  type = s.type;
  superscope_name = s.superscope_name;
  lease_duration_seconds = s.lease_duration_seconds;
  address_family = text "ipv4";
}

unfoldable pub has_id : List Text → Text → Bool
has_id [] id = false
has_id (s ∷ seen) id = if text_eq s id then true else has_id seen id

-- `resolveScope`'s scan
unfoldable pub find_scope : Text → List Scope → Option Scope
find_scope id [] = none
find_scope id (s ∷ ss) = if text_eq s.wadapt_id id then some s else find_scope id ss

-- `slices.SortFunc` by the identity; `identify` has made sure that there are no ties
unfoldable pub insert_scope : Scope → List Scope → List Scope
insert_scope s [] = s ∷ []
insert_scope s (t ∷ ts) =
    let rest = insert_scope s ts in
    if text_less s.wadapt_id t.wadapt_id then s ∷ t ∷ ts else t ∷ rest

unfoldable pub sort_scopes : List Scope → List Scope
sort_scopes [] = []
sort_scopes (s ∷ ss) = insert_scope s (sort_scopes ss)

abbrev is_ascii_space : ℕ → Bool
is_ascii_space c = c == 32 || c == 9 || c == 13 || c == 10

-- `conflictPayload`: what follows the marker, where the marker is the whole first line
unfoldable pub conflict_payload : Text → Option Text
conflict_payload out =
    let cut = cut_line (trim_left is_ascii_space out) in
    if text_eq (trim_space cut.0) (text "WADAPT_CONFLICT") then some cut.1 else none

module _ {W : Type 0} (b : Backend W) where
  unfoldable pub decode_scopes : Text → Answer (List Scope)
  decode_scopes out =
      if is_blank (trim_space out) then err backend_malformed else decoded (b.unmarshal out)

  -- `identify`, with the identities that have been seen
  unfoldable pub identify_from : List Text → List Scope → Answer (List Scope)
  identify_from seen [] = ok []
  identify_from seen (s ∷ ss) =
      let id = b.derive_wadapt_id s.scope_id in
      elim (identify_from (id ∷ seen) ss) [
        | err e ↦ err duplicate_wadapt_id
        | ok rest ↦
            if has_id seen id then err duplicate_wadapt_id else ok (with_identity id s ∷ rest)
      ]

  unfoldable pub identify : List Scope → Answer (List Scope)
  identify ss = identify_from [] ss

  -- `decodeScopes`, and `identify` on what it gives
  unfoldable pub identified : Answer (List Scope) → Answer (List Scope)
  identified (ok ss) = identify ss
  identified (err e) = err e

  unfoldable pub exactly_one : List Scope → Answer Scope
  exactly_one (s ∷ []) = ok s
  exactly_one _ = err backend_malformed

  unfoldable pub one_of : Answer (List Scope) → Answer Scope
  one_of (ok ss) = exactly_one ss
  one_of (err e) = err e

  -- `decodeOne`, behind the test that there is one scope
  unfoldable pub stamp : Answer Scope → Answer Scope
  stamp (err e) = err e
  stamp (ok s) = one_of (identify (s ∷ []))

  unfoldable pub decode_one : Text → Answer Scope
  decode_one out = stamp (one_of (decode_scopes out))
