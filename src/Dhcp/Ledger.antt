-- ===== src/Dhcp/Ledger.antt =====
-- What the ledger of internal/adapters/dhcpwindows/drift.go reports and remembers.
use weave_adapters.Prelude.Int.{ℤ, pos, negsuc}
use weave_adapters.Prelude.Text.{Text, text_eq, text_eq_iff, text_eq_refl}
use weave_adapters.Prelude.{
  ◌≡◌, ◌↔◌, ◌⊎◌, ◌∙◌, sym, ap, subst, refl, true, false, Option, none, some, List, [], ◌∷◌, ◌++◌,
  arith, if◌then◌else◌, All, inl, inr,
}
use weave_adapters.Dhcp.Update.{Scope}
use weave_adapters.Dhcp.Ranges.{append-none}
use weave_adapters.Dhcp.Drift.{
  Fingerprint, fingerprint_of, fingerprint_eq, DriftLedger, eq_ℤ, last_seen, record_seen, report_of,
  observe,
}

fingerprint_eq_iff : (a b : Fingerprint) → (fingerprint_eq a b ≡ true) ↔ (a ≡ b)
unfolding fingerprint_eq
fingerprint_eq_iff a b = ground (
  arith,
  text_eq_iff a.name b.name,
  text_eq_iff a.start_range b.start_range,
  text_eq_iff a.end_range b.end_range,
  text_eq_iff a.subnet_mask b.subnet_mask,
  eq_ℤ_iff a.lease_duration_seconds b.lease_duration_seconds,
)
  where
    eq_ℤ_iff : (a b : ℤ) → (eq_ℤ a b ≡ true) ↔ (a ≡ b)
    eq_ℤ_iff (pos m) (pos n) = ground arith
    eq_ℤ_iff (negsuc m) (negsuc n) = ground arith
    eq_ℤ_iff (pos m) (negsuc n) = ground arith
    eq_ℤ_iff (negsuc m) (pos n) = ground arith

-- the last scope of a listing with that identity, behind what was seen before
abbrev pub latest : Text → Option Fingerprint → List Scope → Option Fingerprint
latest id before [] = before
latest id before (s ∷ ss) =
    latest id (if text_eq s.wadapt_id id then some (fingerprint_of s) else before) ss

-- `observe` leaves in the ledger the latest attributes of every identity.
pub observe-latest :
    (l : DriftLedger) (ss : List Scope) (id : Text)
    → last_seen id (observe l ss).0 ≡ latest id (last_seen id l) ss
unfolding observe last_seen record_seen
observe-latest l [] id = refl
observe-latest l (s ∷ ss) id = observe-latest (record_seen s.wadapt_id (fingerprint_of s) l) ss id

-- The identity is in the ledger with the attributes that the scope has now, or not at all.
abbrev pub IsKnown : DriftLedger → Scope → Type 0
IsKnown l s = (last_seen s.wadapt_id l ≡ none) ⊎ (last_seen s.wadapt_id l ≡ some (fingerprint_of s))

-- No identity stands twice in the listing.
abbrev pub AreDistinct : List Scope → Type 0
AreDistinct [] = Unit
AreDistinct (s ∷ ss) = All (λ t. text_eq s.wadapt_id t.wadapt_id ≡ false) ss × AreDistinct ss

report_of-none :
    (s : Scope) (o : Option Fingerprint)
    → (report_of s o ≡ []) ↔ ((o ≡ none) ⊎ (o ≡ some (fingerprint_of s)))
unfolding report_of
report_of-none s none = ground arith
report_of-none s (some f) = ground (arith, fingerprint_eq_iff f (fingerprint_of s))

last_seen-other :
    (k id : Text) (f : Fingerprint) (l : DriftLedger)
    → text_eq k id ≡ false
    → last_seen id (record_seen k f l) ≡ last_seen id l
unfolding last_seen record_seen
last_seen-other k id f l n = rw n refl

last_seen-same :
    (k : Text) (f : Fingerprint) (l : DriftLedger) → last_seen k (record_seen k f l) ≡ some f
unfolding last_seen record_seen
last_seen-same k f l = rw (text_eq_refl k) refl

IsKnown-other :
    (s : Scope) (l : DriftLedger) (ss : List Scope)
    → All (λ t. text_eq s.wadapt_id t.wadapt_id ≡ false) ss
    → All (IsKnown (record_seen s.wadapt_id (fingerprint_of s) l)) ss ↔ All (IsKnown l) ss
IsKnown-other s l [] d = (λ h. tt, λ h. tt)
IsKnown-other s l (t ∷ ss) d =
    let e = last_seen-other s.wadapt_id t.wadapt_id (fingerprint_of s) l d.0 in
    let rest = IsKnown-other s l ss d.1 in
    (λ h. (known e h.0, rest.0 h.1), λ h. (known (sym e) h.0, rest.1 h.1))
  where
    known :
        {a b : Option Fingerprint}
        → a ≡ b
        → (a ≡ none) ⊎ (a ≡ some (fingerprint_of t))
        → (b ≡ none) ⊎ (b ≡ some (fingerprint_of t))
    known e (inl h) = inl (sym e ∙ h)
    known e (inr h) = inr (sym e ∙ h)

abbrev after : DriftLedger → Scope → DriftLedger
after l s = record_seen s.wadapt_id (fingerprint_of s) l

observe-cons :
    (l : DriftLedger) (s : Scope) (ss : List Scope)
    → observe l (s ∷ ss) ≡ (
      (observe (after l s) ss).0,
      report_of s (last_seen s.wadapt_id l) ++ (observe (after l s) ss).1,
    )
unfolding observe
observe-cons l s ss = refl

-- A listing without duplicates is not reported on exactly when each of its identities is new to the
-- ledger or has the attributes that the ledger knows.
pub observe-none :
    (l : DriftLedger) (ss : List Scope)
    → AreDistinct ss
    → ((observe l ss).1 ≡ []) ↔ All (IsKnown l) ss
observe-none l [] d = (λ h. tt, λ h. unfold observe in refl)
observe-none l (s ∷ ss) d =
    let e = ap (λ r. r.1) (observe-cons l s ss) in
    let known = report_of-none s (last_seen s.wadapt_id l) in
    let others = IsKnown-other s l ss d.0 in
    let rest = observe-none (after l s) ss d.1 in
    let both = append-none (report_of s (last_seen s.wadapt_id l)) (observe (after l s) ss).1 in
    (
      λ h. let (a, b) = both.0 (sym e ∙ h) in (known.0 a, others.0 (rest.0 b)),
      λ k. e ∙ both.1 (known.1 k.0, rest.1 (others.1 k.1)),
    )

latest-other :
    (id : Text) (o : Option Fingerprint) (ss : List Scope)
    → All (λ t. text_eq id t.wadapt_id ≡ false) ss
    → latest id o ss ≡ o
latest-other id o [] d = refl
latest-other id o (t ∷ ss) d = rw (swapped d.0) (latest-other id o ss d.1)
  where
    swapped : text_eq id t.wadapt_id ≡ false → text_eq t.wadapt_id id ≡ false
    swapped n = ground (arith, n, text_eq_iff id t.wadapt_id, text_eq_iff t.wadapt_id id)

observe-IsKnown :
    (l : DriftLedger) (ss : List Scope) → AreDistinct ss → All (IsKnown (observe l ss).0) ss
observe-IsKnown l [] d = tt
observe-IsKnown l (s ∷ ss) d =
    subst (λ m. All (IsKnown m) (s ∷ ss)) (sym (ap (λ r. r.0) (observe-cons l s ss)))
      (
        inr (
            observe-latest (after l s) ss s.wadapt_id
            ∙ (latest-other s.wadapt_id _ ss d.0
                ∙ last_seen-same s.wadapt_id (fingerprint_of s) l)),
        observe-IsKnown (after l s) ss d.1,
      )

-- One look is the next one's baseline: the same listing again, without duplicates, is not reported on.
pub observe-observe :
    (l : DriftLedger) (ss : List Scope) → AreDistinct ss → (observe (observe l ss).0 ss).1 ≡ []
observe-observe l ss d = (observe-none (observe l ss).0 ss d).1 (observe-IsKnown l ss d)

-- An identity that a listing does not have keeps its entry.
pub observe-retained :
    (l : DriftLedger) (ss : List Scope) (id : Text)
    → All (λ t. text_eq id t.wadapt_id ≡ false) ss
    → last_seen id (observe l ss).0 ≡ last_seen id l
observe-retained l ss id d = observe-latest l ss id ∙ latest-other id (last_seen id l) ss d
