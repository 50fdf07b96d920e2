-- ===== src/Dhcp/NamesOnce.antt =====
-- No field is named twice in what an update is refused with, of
-- internal/adapters/dhcpwindows/update.go.
use weave_adapters.Prelude.{
  ◌≡◌, ◌⊎◌, ◌∙◌, sym, subst, refl, Bool, true, false, ◌||◌, Option, none, some, List, [], ◌∷◌, ◌++◌,
  String, str_eq, arith, Bool-cases, Option-cases, All, inl, inr,
}
use weave_adapters.Dhcp.Addr.{Addr, parse_ip_v4}
use weave_adapters.Dhcp.Create.{FieldError}
use weave_adapters.Dhcp.Update.{Scope, ScopeUpdate, changes_range}
use weave_adapters.Dhcp.RangeWays.{unchanged, no_mask, with_mask, some-injective}
use weave_adapters.Dhcp.EffectiveRange.{
  is_named, append_unnamed, outside, check_end_inside, check_ends, check_effective,
  validate_effective_range,
}

-- No field is named twice.
abbrev pub NamesOnce : List FieldError → Type 0
NamesOnce [] = Unit
NamesOnce (e ∷ es) = All (λ f. str_eq e.field f.field ≡ false) es × NamesOnce es

or-false : {a b : Bool} → (a || b) ≡ false → (a ≡ false) × (b ≡ false)
or-false {a = false} h = (refl, h)
or-false {a = true} h = ground arith

NamesOnce-snoc :
    (es : List FieldError) (e : FieldError)
    → NamesOnce es
    → is_named es e ≡ false
    → NamesOnce (es ++ e ∷ [])
unfolding is_named
NamesOnce-snoc [] e o n = (tt, tt)
NamesOnce-snoc (f ∷ es) e o n =
    (All-snoc es o.0 (or-false n).0, NamesOnce-snoc es e o.1 (or-false n).1)
  where
    All-snoc :
        (es : List FieldError)
        → All (λ g. str_eq f.field g.field ≡ false) es
        → str_eq f.field e.field ≡ false
        → All (λ g. str_eq f.field g.field ≡ false) (es ++ e ∷ [])
    All-snoc [] a q = (q, tt)
    All-snoc (g ∷ es) a q = (a.0, All-snoc es a.1 q)

append_unnamed-NamesOnce :
    (into more : List FieldError) → NamesOnce into → NamesOnce (append_unnamed into more)
unfolding append_unnamed
append_unnamed-NamesOnce into [] o = o
append_unnamed-NamesOnce into (e ∷ more) o = elim (Bool-cases (is_named into e)) [
  | inl n ↦ rw n (append_unnamed-NamesOnce into more o)
  | inr n ↦ rw n (append_unnamed-NamesOnce (into ++ e ∷ []) more (NamesOnce-snoc into e o n))
]

check_end_inside-cases :
    (f : String) (x : Scope) (m : Addr) (o : Option Addr)
    → (check_end_inside f x m o ≡ []) ⊎ (check_end_inside f x m o ≡ outside f x)
unfolding check_end_inside
check_end_inside-cases f x m none = inr refl
check_end_inside-cases f x m (some a) = ground arith

ends-NamesOnce :
    (x : Scope) (m : Addr) (s e : Option Addr)
    → NamesOnce (check_end_inside "startRange" x m s ++ check_end_inside "endRange" x m e)
ends-NamesOnce x m s e = elim (check_end_inside-cases "startRange" x m s) [
  | inl p ↦ elim (check_end_inside-cases "endRange" x m e) [
    | inl q ↦ rw (p, q) tt
    | inr q ↦ rw (p, q) (tt, tt)
  ]
  | inr p ↦ elim (check_end_inside-cases "endRange" x m e) [
    | inl q ↦ rw (p, q) (tt, tt)
    | inr q ↦ rw (p, q) ((refl, tt), (tt, tt))
  ]
]

check_effective-NamesOnce :
    (inp : ScopeUpdate) (x : Scope) (m : Addr) (s e : Option Addr)
    → NamesOnce (check_effective inp x m s e)
unfolding check_effective check_ends
check_effective-NamesOnce inp x m none e = ends-NamesOnce x m none e
check_effective-NamesOnce inp x m (some s) none = ends-NamesOnce x m (some s) none
check_effective-NamesOnce inp x m (some s) (some e) =
    append_unnamed-NamesOnce _ _
      (append_unnamed-NamesOnce _ _ (ends-NamesOnce x m (some s) (some e)))

-- However many rules a range breaks, each field is named at most once.
pub validate_effective_range-NamesOnce :
    (inp : ScopeUpdate) (x : Scope) {es : List FieldError}
    → validate_effective_range inp x ≡ some es
    → NamesOnce es
validate_effective_range-NamesOnce inp x {es} h = elim (Bool-cases (changes_range inp)) [
  | inr c ↦ subst NamesOnce (some-injective (sym (unchanged inp x c) ∙ h)) tt
  | inl c ↦ elim (Option-cases (parse_ip_v4 x.subnet_mask)) [
    | inl n ↦ ground (arith, no_mask inp x c n, h)
    | inr (m, g) ↦
        subst NamesOnce (some-injective (sym (with_mask inp x m c g) ∙ h))
          (check_effective-NamesOnce inp x m _ _)
  ]
]
