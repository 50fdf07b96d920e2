-- ===== src/Dhcp/Drift.antt =====
-- internal/adapters/dhcpwindows/drift.go: the ledger of last-seen attributes. The lock makes `observe`
-- one step, so the ledger is a value that is passed along.
use weave_adapters.Prelude.Int.{ℤ, pos, negsuc}
use weave_adapters.Prelude.Text.{Text, text_eq}
use weave_adapters.Prelude.{
  Bool, false, ◌&&◌, Option, none, some, List, [], ◌∷◌, ◌++◌, ◌==◌, if◌then◌else◌,
}
use weave_adapters.Dhcp.Update.{Scope}

pub record Fingerprint : Type 0 where
  pub name : Text
  pub start_range : Text
  pub end_range : Text
  pub subnet_mask : Text
  pub lease_duration_seconds : ℤ

unfoldable pub fingerprint_of : Scope → Fingerprint
fingerprint_of s = record {
  name = s.name;
  start_range = s.start_range;
  end_range = s.end_range;
  subnet_mask = s.subnet_mask;
  lease_duration_seconds = s.lease_duration_seconds;
}

abbrev pub eq_ℤ : ℤ → ℤ → Bool
eq_ℤ (pos m) (pos n) = m == n
eq_ℤ (negsuc m) (negsuc n) = m == n
eq_ℤ _ _ = false

-- `==` on two fingerprints
unfoldable pub fingerprint_eq : Fingerprint → Fingerprint → Bool
fingerprint_eq a b =
    text_eq a.name b.name
    && (text_eq a.start_range b.start_range
        && (text_eq a.end_range b.end_range
            && (text_eq a.subnet_mask b.subnet_mask
                && eq_ℤ a.lease_duration_seconds b.lease_duration_seconds)))

pub record DriftReport : Type 0 where
  pub wadapt_id : Text
  pub scope_id : Text
  pub was : Fingerprint
  pub now : Fingerprint

-- `seen`; the map made on first use is the empty one
abbrev pub DriftLedger : Type 0
DriftLedger = List (Text × Fingerprint)

unfoldable pub last_seen : Text → DriftLedger → Option Fingerprint
last_seen k [] = none
last_seen k (e ∷ l) = if text_eq e.0 k then some e.1 else last_seen k l

-- an entry in front hides an older one
unfoldable pub record_seen : Text → Fingerprint → DriftLedger → DriftLedger
record_seen k f l = (k, f) ∷ l

unfoldable pub report_of : Scope → Option Fingerprint → List DriftReport
report_of s none = []
report_of s (some was) =
    if fingerprint_eq was (fingerprint_of s)
    then []
    else record {
      wadapt_id = s.wadapt_id;
      scope_id = s.scope_id;
      was = was;
      now = fingerprint_of s;
    }
      ∷ []

unfoldable pub observe : DriftLedger → List Scope → DriftLedger × List DriftReport
observe l [] = (l, [])
observe l (s ∷ scopes) =
    let rest = observe (record_seen s.wadapt_id (fingerprint_of s) l) scopes in
    (rest.0, report_of s (last_seen s.wadapt_id l) ++ rest.1)
