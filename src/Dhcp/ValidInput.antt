-- ===== src/Dhcp/ValidInput.antt =====
-- What the validation of a new scope lets through, stated without it.
use weave_adapters.Prelude.Int.{ℤ, pos, negsuc}
use weave_adapters.Prelude.Text.{Text, text, text_eq_iff, byte_len, contains}
use weave_adapters.Prelude.{
  ℕ, ◌^◌, ◌≤◌, ◌<◌, ◌≡◌, ◌≢◌, ◌↔◌, ◌⊎◌, ◌∙◌, sym, ap, refl, true, false, Option, none, some, List,
  [], ◌∷◌, ◌++◌, String, arith,
}
use weave_adapters.Dhcp.Addr.{value, Addr, parse_ip_v4, has_host_addresses, is_contiguous_mask}
use weave_adapters.Dhcp.RoundTrip.{IsAddr, parse_ip_v4-IsAddr}
use weave_adapters.Dhcp.Create.{
  FieldError, ScopeInput, has_control_chars, check_name, check_description, check_parsed,
  check_mask, check_order, check_subnet, check_range, check_lease, check_listed, validate,
  validate_addressing, validate_text, validate_options, valid_states, valid_types,
}
use weave_adapters.Dhcp.Ranges.{append-none, append-none_iff, check_subnet_iff}
use weave_adapters.Dhcp.HostRange.{IsHostRange, IsLeasable-IsHostRange}
use weave_adapters.Dhcp.Masks.{IsSubnetMask, is_contiguous_mask_iff}

-- the parts of `IsValidInput`
abbrev pub IsName : Text → Type 0
IsName s = (s ≢ []) × (byte_len s ≤ 255) × (has_control_chars s ≡ false)

abbrev pub IsDescription : Text → Type 0
IsDescription s = (byte_len s ≤ 255) × (has_control_chars s ≡ false)

abbrev pub IsLease : ℤ → Type 0
IsLease n = (seconds : ℕ) × (n ≡ pos seconds) × (seconds < 2 ^ 31)

abbrev pub IsState : Text → Type 0
IsState s = (s ≡ []) ⊎ ((s ≡ text "Active") ⊎ (s ≡ text "Inactive"))

abbrev pub IsType : Text → Type 0
IsType s = (s ≡ []) ⊎ ((s ≡ text "Dhcp") ⊎ ((s ≡ text "Bootp") ⊎ (s ≡ text "Both")))

-- The three addresses parse, and describe a range that can be leased from.
pub record IsAddressed (inp : ScopeInput) : Type 0 where
  pub start : Addr
  pub end_ : Addr
  pub mask : Addr
  pub start_is : parse_ip_v4 inp.start_range ≡ some start
  pub end_is : parse_ip_v4 inp.end_range ≡ some end_
  pub mask_is : parse_ip_v4 inp.subnet_mask ≡ some mask
  pub mask_ok : IsSubnetMask mask
  pub range : IsHostRange mask_ok.0 (value start) (value end_)

-- A request for a scope that Windows can create.
pub record IsValidInput (inp : ScopeInput) : Type 0 where
  pub name : IsName inp.name
  pub description : IsDescription inp.description
  pub lease : IsLease inp.lease_duration_seconds
  pub state : IsState inp.state
  pub type : IsType inp.type
  pub addressing : IsAddressed inp

check_name_iff : (s : Text) → (check_name s ≡ []) ↔ IsName s
unfolding check_name
check_name_iff [] = ground arith
check_name_iff (c ∷ cs) = ground arith

check_description_iff : (s : Text) → (check_description s ≡ []) ↔ IsDescription s
unfolding check_description
check_description_iff s = ground arith

check_lease_iff : (n : ℤ) → (check_lease n ≡ []) ↔ IsLease n
unfolding check_lease
check_lease_iff (pos n) = (λ e. (n, refl, ground arith), λ (k, e, l). ground (arith, e, l))
check_lease_iff (negsuc n) = (λ e. ground arith, λ (k, e, l). ground (arith, e))

check_listed-IsState_iff :
    (s : Text)
    → (check_listed "state" "must be one of Active, Inactive" valid_states s ≡ []) ↔ IsState s
unfolding check_listed contains
check_listed-IsState_iff [] = ground arith
check_listed-IsState_iff (c ∷ cs) =
    ground (arith, text_eq_iff (text "Active") (c ∷ cs), text_eq_iff (text "Inactive") (c ∷ cs))

check_listed-IsType_iff :
    (s : Text)
    → (check_listed "type" "must be one of Dhcp, Bootp, Both" valid_types s ≡ []) ↔ IsType s
unfolding check_listed contains
check_listed-IsType_iff [] = ground arith
check_listed-IsType_iff (c ∷ cs) = ground (
  arith,
  text_eq_iff (text "Dhcp") (c ∷ cs),
  text_eq_iff (text "Bootp") (c ∷ cs),
  text_eq_iff (text "Both") (c ∷ cs),
)

check_parsed-some :
    (f : String) (o : Option Addr) → check_parsed f o ≡ [] → (a : Addr) × (o ≡ some a)
unfolding check_parsed
check_parsed-some f none e = ground arith
check_parsed-some f (some a) e = (a, refl)

check_mask-some :
    (o : Option Addr)
    → (check_mask o).0 ≡ []
    → (m : Addr) × (o ≡ some m) × (is_contiguous_mask m ≡ true) × (has_host_addresses m ≡ true)
unfolding check_mask
check_mask-some none e = ground arith
check_mask-some (some m) e = (m, refl, ground arith, ground arith)

some-check_mask :
    (m : Addr)
    → is_contiguous_mask m ≡ true
    → has_host_addresses m ≡ true
    → check_mask (some m) ≡ ([], some m)
unfolding check_mask
some-check_mask m c h = simp (c, h)

abbrev all_addressing : Option Addr → Option Addr → Option Addr → List FieldError
all_addressing s e m =
    check_parsed "startRange" s
    ++ check_parsed "endRange" e
    ++ (check_mask m).0
    ++ check_range s e (check_mask m).1

-- Three addresses with a usable mask leave the checks of the range.
all_addressing-some :
    (s e m : Addr)
    → is_contiguous_mask m ≡ true
    → has_host_addresses m ≡ true
    → all_addressing (some s) (some e) (some m) ≡ check_order s e ++ check_subnet s e (some m)
unfolding check_parsed check_range
all_addressing-some s e m c g = rw (some-check_mask m c g) refl

validate_addressing-some :
    (inp : ScopeInput) (s e m : Addr)
    → parse_ip_v4 inp.start_range ≡ some s
    → parse_ip_v4 inp.end_range ≡ some e
    → parse_ip_v4 inp.subnet_mask ≡ some m
    → (is_contiguous_mask m ≡ true) × (has_host_addresses m ≡ true)
    → validate_addressing inp ≡ check_order s e ++ check_subnet s e (some m)
validate_addressing-some inp s e m p q r (c, g) =
    ap (λ x. all_addressing x (parse_ip_v4 inp.end_range) (parse_ip_v4 inp.subnet_mask)) p
    ∙ (ap (λ x. all_addressing (some s) x (parse_ip_v4 inp.subnet_mask)) q
        ∙ (ap (λ x. all_addressing (some s) (some e) x) r ∙ all_addressing-some s e m c g))

-- Checks without an error have three addresses and a usable mask.
all_addressing-parsed :
    (s e m : Option Addr)
    → all_addressing s e m ≡ []
    → ((a : Addr) × (s ≡ some a))
      × ((a : Addr) × (e ≡ some a))
      × ((a : Addr) × (m ≡ some a) × (is_contiguous_mask a ≡ true) × (has_host_addresses a ≡ true))
all_addressing-parsed s e m h =
    let (k, r) = (append-none _ (check_range s e (check_mask m).1)).0 h in
    let (l, y) = (append-none (check_parsed "startRange" s ++ check_parsed "endRange" e) _).0 k in
    let (x, z) = (append-none (check_parsed "startRange" s) _).0 l in
    (check_parsed-some "startRange" s x, check_parsed-some "endRange" e z, check_mask-some m y)

-- what is left of the checks, behind three addresses with a usable mask
range_iff :
    (s e m : Addr) (k : IsSubnetMask m)
    → IsAddr s
    → IsAddr e
    → IsAddr m
    → (check_order s e ++ check_subnet s e (some m) ≡ []) ↔ IsHostRange k.0 (value s) (value e)
range_iff s e m (k, l, u, q) h i j =
    let leasable = IsLeasable-IsHostRange s e m k h i j (omega arith) q in
    let checks = check_subnet_iff s e m h i in
    let both = append-none (check_order s e) (check_subnet s e (some m)) in
    (λ z. leasable.0 (checks.0 (both.0 z)), λ r. both.1 (checks.1 (leasable.1 r)))

validate_addressing-IsAddressed :
    (inp : ScopeInput) → validate_addressing inp ≡ [] → IsAddressed inp
validate_addressing-IsAddressed inp h =
    let ((s, s_is), (e, e_is), (m, m_is, c, g)) = all_addressing-parsed _ _ _ h in
    let m_byte = parse_ip_v4-IsAddr inp.subnet_mask m m_is in
    let k : IsSubnetMask m = (is_contiguous_mask_iff m m_byte).0 (c, g) in
    record {
      start = s;
      end_ = e;
      mask = m;
      start_is = s_is;
      end_is = e_is;
      mask_is = m_is;
      mask_ok = k;
      range =
          (range_iff s e m k (parse_ip_v4-IsAddr inp.start_range s s_is)
              (parse_ip_v4-IsAddr inp.end_range e e_is) m_byte).0
            (sym (validate_addressing-some inp s e m s_is e_is m_is (c, g)) ∙ h);
    }

IsAddressed-validate_addressing :
    (inp : ScopeInput) → IsAddressed inp → validate_addressing inp ≡ []
IsAddressed-validate_addressing inp a =
    let m_byte = parse_ip_v4-IsAddr inp.subnet_mask a.mask a.mask_is in
    validate_addressing-some inp a.start a.end_ a.mask a.start_is a.end_is a.mask_is
      ((is_contiguous_mask_iff a.mask m_byte).1 a.mask_ok)
    ∙ (range_iff a.start a.end_ a.mask a.mask_ok
          (parse_ip_v4-IsAddr inp.start_range a.start a.start_is)
          (parse_ip_v4-IsAddr inp.end_range a.end_ a.end_is) m_byte).1
        a.range

validate_text_iff :
    (inp : ScopeInput)
    → (validate_text inp ≡ []) ↔ (IsName inp.name × IsDescription inp.description)
validate_text_iff inp =
    append-none_iff (check_name_iff inp.name) (check_description_iff inp.description)

validate_options_iff :
    (inp : ScopeInput)
    → (validate_options inp ≡ [])
      ↔ ((IsLease inp.lease_duration_seconds × IsState inp.state) × IsType inp.type)
validate_options_iff inp =
    append-none_iff
      (append-none_iff (check_lease_iff inp.lease_duration_seconds)
        (check_listed-IsState_iff inp.state))
      (check_listed-IsType_iff inp.type)

-- A request is accepted exactly when `IsValidInput` holds of it: the limits on its texts are counted in
-- bytes of UTF-8, and a lease of 0, the default, is among the leases.
pub validate_iff : (inp : ScopeInput) → (validate inp ≡ []) ↔ IsValidInput inp
unfolding validate
validate_iff inp = (
  λ h.
      let ((t, a), o) = (parts inp).0 h in
      record {
        name = t.0;
        description = t.1;
        lease = o.0.0;
        state = o.0.1;
        type = o.1;
        addressing = a;
      },
  λ v. (parts inp).1 (((v.name, v.description), v.addressing), ((v.lease, v.state), v.type)),
)
  where
    parts :
        (inp : ScopeInput)
        → (validate inp ≡ []) ↔ (
            ((IsName inp.name × IsDescription inp.description) × IsAddressed inp)
            × ((IsLease inp.lease_duration_seconds × IsState inp.state) × IsType inp.type))
    parts inp =
        append-none_iff
          (append-none_iff (validate_text_iff inp)
            (validate_addressing-IsAddressed inp, IsAddressed-validate_addressing inp))
          (validate_options_iff inp)
