-- ===== src/Auth/Labels.antt =====
-- The store of internal/core/auth/store.go as a map from labels, which its operations keep valid.
use weave_adapters.Prelude.Text.{Text, text_eq, text_eq_iff, text_eq_refl, text_eq_sym}
use weave_adapters.Prelude.{
  ◌≡◌, ◌⊎◌, ◌↔◌, ◌∙◌, refl, sym, ap, subst, true, false, none, List, [], ◌∷◌, ◌++◌, arith, All, inl,
  inr, Bool-cases, Option-cases,
}
use weave_adapters.Auth.Store.{
  Entry, Store, Answer, ok, err, is_label, is_hash, find, has_label, validate_from, validate, add,
  keep, revoke,
}

abbrev pub IsOther : Text → Entry → Type 0
IsOther label e = text_eq e.label label ≡ false

-- Each label and hash has its form, and no label stands twice.
abbrev pub IsValid : Store → Type 0
IsValid [] = Unit
IsValid (e ∷ s) =
    (is_label e.label ≡ true) × (is_hash e.hash ≡ true) × All (IsOther e.label) s × IsValid s

abbrev IsUnseen : List Text → Entry → Type 0
IsUnseen seen e = has_label e.label seen ≡ false

IsUnseen-cons :
    (l : Text) (seen : List Text) (s : Store)
    → All (IsUnseen (l ∷ seen)) s ↔ (All (IsOther l) s × All (IsUnseen seen) s)
unfolding has_label
IsUnseen-cons l seen [] = (λ h. (tt, tt), λ h. tt)
IsUnseen-cons l seen (e ∷ s) =
    let rest = IsUnseen-cons l seen s in
    (
      λ h. (
        (ground (arith, text_eq_sym e.label l, h), (rest.0 h.1).0),
        (ground (arith, h), (rest.0 h.1).1),
      ),
      λ h. (ground (arith, text_eq_sym e.label l, h), rest.1 (h.0.1, h.1.1)),
    )

validate_from_iff :
    (seen : List Text) (s : Store)
    → (validate_from seen s ≡ none) ↔ (IsValid s × All (IsUnseen seen) s)
unfolding validate_from
validate_from_iff seen [] = (λ h. (tt, tt), λ h. refl)
validate_from_iff seen (e ∷ s) =
    let rest = validate_from_iff (e.label ∷ seen) s in
    let later = IsUnseen-cons e.label seen s in
    (
      λ h.
          let here : (is_label e.label ≡ true)
              × (is_hash e.hash ≡ true)
              × IsUnseen seen e
              × (validate_from (e.label ∷ seen) s ≡ none) =
            ground (arith, h) in
          let (v, u) = rest.0 here.3 in
          ((here.0, here.1, (later.0 u).0, v), (here.2, (later.0 u).1)),
      λ (v, u). ground (arith, v.0, v.1, u.0, rest.1 (v.3, later.1 (v.2, u.1))),
    )

-- `validate` finds nothing wrong exactly with a valid store.
pub validate_iff : (s : Store) → (validate s ≡ none) ↔ IsValid s
unfolding validate has_label
validate_iff s =
    let all = validate_from_iff [] s in (λ h. (all.0 h).0, λ v. all.1 (v, unseen-nil s))
  where
    unseen-nil : (s : Store) → All (IsUnseen []) s
    unseen-nil [] = tt
    unseen-nil (e ∷ s) = (refl, unseen-nil s)

find-none : (label : Text) (s : Store) → (find label s ≡ none) ↔ All (IsOther label) s
unfolding find
find-none label [] = (λ h. tt, λ h. refl)
find-none label (e ∷ s) =
    let rest = find-none label s in
    (λ h. (ground (arith, h), rest.0 (ground (arith, h))), λ o. ground (arith, o.0, rest.1 o.1))

snoc-IsValid :
    (s : Store) (e : Entry)
    → IsValid s
    → is_label e.label ≡ true
    → is_hash e.hash ≡ true
    → All (IsOther e.label) s
    → IsValid (s ++ e ∷ [])
snoc-IsValid [] e h l k o = (l, k, tt, tt)
snoc-IsValid (d ∷ s) e h l k o =
    (h.0, h.1, All-snoc s h.2 (text_eq_sym e.label d.label ∙ o.0), snoc-IsValid s e h.3 l k o.1)
  where
    All-snoc :
        (s : Store)
        → All (IsOther d.label) s
        → IsOther d.label e
        → All (IsOther d.label) (s ++ e ∷ [])
    All-snoc [] a b = (b, tt)
    All-snoc (c ∷ s) a b = (a.0, All-snoc s a.1 b)

-- What `Add` adds is at the end, under a label of the right form that was free.
pub add-ok :
    (e : Entry) (s t : Store)
    → add e s ≡ ok t
    → (is_label e.label ≡ true) × (s ++ e ∷ [] ≡ t) × All (IsOther e.label) s
unfolding add
add-ok e s t a = elim (Option-cases (find e.label s)) [
  | inr (f, g) ↦ ground (arith, a, g)
  | inl n ↦ (ground (arith, a, n), ground (arith, a, n), (find-none e.label s).0 n)
]

-- `Add` leaves a valid store valid if the hash has its form.
pub add-IsValid :
    (e : Entry) (s t : Store) → IsValid s → is_hash e.hash ≡ true → add e s ≡ ok t → IsValid t
add-IsValid e s t h k a =
    let (l, r, o) = add-ok e s t a in subst IsValid r (snoc-IsValid s e h l k o)

keep-ok :
    (e : Entry) (a : Answer Store) (t : Store)
    → keep e a ≡ ok t
    → (u : Store) × (a ≡ ok u) × (e ∷ u ≡ t)
keep-ok e (ok u) t h = (u, refl, ground (arith, h))
keep-ok e (err x) t h = ground (arith, h)

revoke-cons :
    (label : Text) (e : Entry) (s t : Store)
    → revoke label (e ∷ s) ≡ ok t
    → ((text_eq e.label label ≡ true) × (s ≡ t))
      ⊎ ((text_eq e.label label ≡ false) × ((u : Store) × (revoke label s ≡ ok u) × (e ∷ u ≡ t)))
unfolding revoke
revoke-cons label e s t h = elim (Bool-cases (text_eq e.label label)) [
  | inl q ↦ inl (q, ground (arith, h, q))
  | inr q ↦ inr (q, keep-ok e (revoke label s) t (ground (arith, h, q)))
]

nothing_to_revoke : (label : Text) (t : Store) → revoke label [] ≡ ok t → ⊥
unfolding revoke
nothing_to_revoke label t h = ground (arith, h)

revoke-All :
    (P : Entry → Type 0) (label : Text) (s t : Store) → revoke label s ≡ ok t → All P s → All P t
revoke-All P label [] t h a = absurd (nothing_to_revoke label t h)
revoke-All P label (e ∷ s) t h a = elim (revoke-cons label e s t h) [
  | inl (q, r) ↦ subst (All P) r a.1
  | inr (q, (u, r, k)) ↦ subst (All P) k (a.0, revoke-All P label s u r a.1)
]

-- `Revoke` leaves a valid store valid, with no entry under the label.
pub revoke-IsValid :
    (label : Text) (s t : Store)
    → IsValid s
    → revoke label s ≡ ok t
    → IsValid t × All (IsOther label) t
revoke-IsValid label [] t v h = absurd (nothing_to_revoke label t h)
revoke-IsValid label (e ∷ s) t v h = elim (revoke-cons label e s t h) [
  | inl (q, r) ↦
      subst (λ t. IsValid t × All (IsOther label) t) r
        (v.3, subst (λ l. All (IsOther l) s) ((text_eq_iff e.label label).0 q) v.2)
  | inr (q, (u, r, k)) ↦
      let rest = revoke-IsValid label s u v.3 r in
      subst (λ t. IsValid t × All (IsOther label) t) k
        ((v.0, v.1, revoke-All (IsOther e.label) label s u r v.2, rest.0), (q, rest.1))
]

revoke-snoc :
    (e : Entry) (s : Store) → All (IsOther e.label) s → revoke e.label (s ++ e ∷ []) ≡ ok s
unfolding revoke
revoke-snoc e [] o = rw (text_eq_refl e.label) refl
revoke-snoc e (d ∷ s) o = rw (o.0, revoke-snoc e s o.1) refl

-- A label that was just added is revoked to the store before.
pub revoke-add : (e : Entry) (s t : Store) → add e s ≡ ok t → revoke e.label t ≡ ok s
revoke-add e s t a =
    let (l, r, o) = add-ok e s t a in ap (revoke e.label) (sym r) ∙ revoke-snoc e s o
