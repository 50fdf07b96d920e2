-- ===== src/Dhcp/Resize.antt =====
-- What `validateEffectiveRange` of internal/adapters/dhcpwindows/update.go lets through, and how it
-- names what it refuses.
use weave_adapters.Prelude.Text.{text_eq_iff}
use weave_adapters.Prelude.{
  ◌≤◌, ◌≡◌, ◌≢◌, ◌↔◌, ◌⊎◌, ◌∙◌, sym, ap, refl, true, false, Option, none, some, List, [], ◌∷◌, ◌++◌,
  String, arith, Bool-cases, Option-cases, inl, inr,
}
use weave_adapters.Dhcp.Addr.{Addr, parse_ip_v4, value, network_of, network_addr, broadcast_addr}
use weave_adapters.Dhcp.RoundTrip.{IsAddr, parse_ip_v4-IsAddr}
use weave_adapters.Dhcp.Ranges.{
  append-none, append-none_iff, IsLeasable, check_start_iff, check_end_iff, network_of_iff,
}
use weave_adapters.Dhcp.Create.{FieldError, check_leasable_ends}
use weave_adapters.Dhcp.Update.{Scope, ScopeUpdate, effective, changes_range}
use weave_adapters.Dhcp.RangeWays.{unchanged, no_mask, with_mask, some-injective}
use weave_adapters.Dhcp.EffectiveRange.{
  is_named, append_unnamed, inverted_range, check_end_inside, check_ends, check_effective,
  validate_effective_range,
}

append_unnamed-step :
    (into : List FieldError) (e : FieldError) (more : List FieldError)
    → (append_unnamed into (e ∷ more) ≡ append_unnamed into more)
      ⊎ (append_unnamed into (e ∷ more) ≡ append_unnamed (into ++ e ∷ []) more)
unfolding append_unnamed
append_unnamed-step into e more = elim (Bool-cases (is_named into e)) [
  | inl n ↦ inl (rw n refl)
  | inr n ↦ inr (rw n refl)
]

append_unnamed-cons :
    (f : FieldError) (into more : List FieldError) → append_unnamed (f ∷ into) more ≢ []
append_unnamed-cons f into [] h = unfold append_unnamed in ground (arith, h)
append_unnamed-cons f into (e ∷ more) h = elim (append_unnamed-step (f ∷ into) e more) [
  | inl n ↦ append_unnamed-cons f into more (sym n ∙ h)
  | inr n ↦ append_unnamed-cons f (into ++ e ∷ []) more (sym n ∙ h)
]

append_unnamed-empty :
    (e : FieldError) (more : List FieldError)
    → append_unnamed [] (e ∷ more) ≡ append_unnamed (e ∷ []) more
unfolding append_unnamed is_named
append_unnamed-empty e more = refl

pub append_unnamed-none :
    (into more : List FieldError) → (append_unnamed into more ≡ []) ↔ ((into ≡ []) × (more ≡ []))
append_unnamed-none [] [] = (λ h. (refl, refl), λ h. unfold append_unnamed in refl)
append_unnamed-none [] (e ∷ more) = (
  λ h. absurd (append_unnamed-cons e [] more (sym (append_unnamed-empty e more) ∙ h)),
  λ h. ground (arith, h),
)
append_unnamed-none (f ∷ into) more =
    (λ h. absurd (append_unnamed-cons f into more h), λ h. ground (arith, h))

inverted_range_iff :
    (inp : ScopeUpdate) (s e : Addr) → (inverted_range inp s e ≡ []) ↔ (value s ≤ value e)
unfolding inverted_range
inverted_range_iff inp s e = ground arith

-- the two ends stand in the scope's subnet and can be leased from
pub record IsInside (x : Scope) (start end_ mask : Addr) : Type 0 where
  pub start_inside : network_of start mask ≡ x.scope_id
  pub end_inside : network_of end_ mask ≡ x.scope_id
  pub range : IsLeasable start end_ mask

check_end_inside_iff :
    (f : String) (x : Scope) (m a : Addr)
    → (check_end_inside f x m (some a) ≡ []) ↔ (network_of a m ≡ x.scope_id)
unfolding check_end_inside
check_end_inside_iff f x m a = ground (arith, text_eq_iff (network_of a m) x.scope_id)

check_end_inside-some :
    (f : String) (x : Scope) (m : Addr) (o : Option Addr)
    → check_end_inside f x m o ≡ []
    → (a : Addr) × (o ≡ some a)
unfolding check_end_inside
check_end_inside-some f x m none h = ground arith
check_end_inside-some f x m (some a) h = (a, refl)

check_leasable_ends_iff :
    (s e m : Addr)
    → (check_leasable_ends s e m ≡ []) ↔ ((s ≢ network_addr s m) × (e ≢ broadcast_addr e m))
unfolding check_leasable_ends
check_leasable_ends_iff s e m = append-none_iff (check_start_iff s m) (check_end_iff e m)

check_effective_iff :
    (inp : ScopeUpdate) (x : Scope) (m s e : Addr)
    → IsAddr s
    → IsAddr e
    → (check_effective inp x m (some s) (some e) ≡ []) ↔ IsInside x s e m
unfolding check_effective check_ends
check_effective_iff inp x m s e h k = (
  λ r.
      let (t, i) = (append_unnamed-none _ _).0 r in
      let (b, l) = (append_unnamed-none _ _).0 t in
      let (p, q) = (append-none _ _).0 b in
      let (n, o) = (check_leasable_ends_iff s e m).0 l in
      let p' = (check_end_inside_iff "startRange" x m s).0 p in
      let q' = (check_end_inside_iff "endRange" x m e).0 q in
      record {
        start_inside = p';
        end_inside = q';
        range = record {
          in_order = (inverted_range_iff inp s e).0 i;
          same_network = (network_of_iff s e m h k).0 (p' ∙ sym q');
          not_network = n;
          not_broadcast = o;
        };
      },
  λ r. (append_unnamed-none _ _).1 (
    (append_unnamed-none _ _).1 (
      (append-none _ _).1 (
        (check_end_inside_iff "startRange" x m s).1 r.start_inside,
        (check_end_inside_iff "endRange" x m e).1 r.end_inside,
      ),
      (check_leasable_ends_iff s e m).1 (r.range.not_network, r.range.not_broadcast),
    ),
    (inverted_range_iff inp s e).1 r.range.in_order,
  ),
)

check_effective-some :
    (inp : ScopeUpdate) (x : Scope) (m : Addr) (s e : Option Addr)
    → check_effective inp x m s e ≡ []
    → ((a : Addr) × (s ≡ some a)) × ((a : Addr) × (e ≡ some a))
unfolding check_effective check_ends check_end_inside
check_effective-some inp x m none e h = ground arith
check_effective-some inp x m (some s) none h = ground (
  arith,
  (append-none (check_end_inside "startRange" x m (some s))
        (check_end_inside "endRange" x m none)).0
      h,
)
check_effective-some inp x m (some s) (some e) h = ((s, refl), (e, refl))

-- The range that the update would leave parses, and Windows can set it in the scope's subnet.
pub record Resizes (inp : ScopeUpdate) (x : Scope) : Type 0 where
  pub start : Addr
  pub end_ : Addr
  pub mask : Addr
  pub start_is : parse_ip_v4 (effective inp.start_range x.start_range) ≡ some start
  pub end_is : parse_ip_v4 (effective inp.end_range x.end_range) ≡ some end_
  pub mask_is : parse_ip_v4 x.subnet_mask ≡ some mask
  pub inside : IsInside x start end_ mask

at_ends :
    (inp : ScopeUpdate) (x : Scope) (m : Addr) {s e : Option Addr} {a b : Addr}
    → s ≡ some a
    → e ≡ some b
    → check_effective inp x m s e ≡ check_effective inp x m (some a) (some b)
at_ends inp x m p q = rw (p, q) refl

resizes :
    (inp : ScopeUpdate) (x : Scope) (m : Addr)
    → parse_ip_v4 x.subnet_mask ≡ some m
    → check_effective inp x m
        (parse_ip_v4 (effective inp.start_range x.start_range))
        (parse_ip_v4 (effective inp.end_range x.end_range))
      ≡ []
    → Resizes inp x
resizes inp x m g h =
    let ((s, p), (e, q)) = check_effective-some inp x m _ _ h in
    record {
      start = s;
      end_ = e;
      mask = m;
      start_is = p;
      end_is = q;
      mask_is = g;
      inside =
          (check_effective_iff inp x m s e (parse_ip_v4-IsAddr _ s p) (parse_ip_v4-IsAddr _ e q)).0
            (sym (at_ends inp x m p q) ∙ h);
    }

resized :
    (inp : ScopeUpdate) (x : Scope)
    → changes_range inp ≡ true
    → (validate_effective_range inp x ≡ some []) ↔ Resizes inp x
resized inp x c = (
  λ h. elim (Option-cases (parse_ip_v4 x.subnet_mask)) [
    | inl n ↦ ground (arith, no_mask inp x c n, h)
    | inr (m, g) ↦ resizes inp x m g (some-injective (sym (with_mask inp x m c g) ∙ h))
  ],
  λ r.
      with_mask inp x r.mask c r.mask_is
      ∙ ap some (
          at_ends inp x r.mask r.start_is r.end_is
          ∙ (check_effective_iff inp x r.mask r.start r.end_
                (parse_ip_v4-IsAddr _ r.start r.start_is) (parse_ip_v4-IsAddr _ r.end_ r.end_is)).1
              r.inside),
)

-- A range is let through exactly when it is left alone, or Windows can set what results.
pub validate_effective_range_iff :
    (inp : ScopeUpdate) (x : Scope)
    → (validate_effective_range inp x ≡ some []) ↔ ((changes_range inp ≡ false) ⊎ Resizes inp x)
validate_effective_range_iff inp x = elim (Bool-cases (changes_range inp)) [
  | inl c ↦ (λ h. inr ((resized inp x c).0 h), λ r. (resized inp x c).1 (still r c))
  | inr c ↦ (λ h. inl c, λ g. unchanged inp x c)
]
  where
    still : (changes_range inp ≡ false) ⊎ Resizes inp x → changes_range inp ≡ true → Resizes inp x
    still (inr r) c = r
    still (inl g) c = ground (arith, g, c)
