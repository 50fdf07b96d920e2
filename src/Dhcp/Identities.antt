-- ===== src/Dhcp/Identities.antt =====
-- The identities that `identify` of internal/adapters/dhcpwindows/client.go gives out.
use weave_adapters.Prelude.Text.{Text, text_eq}
use weave_adapters.Prelude.{
  ◌≡◌, ◌∙◌, sym, subst, refl, false, List, [], ◌∷◌, arith, if◌then◌else◌, All, Bool-cases, inl, inr,
}
use weave_adapters.Dhcp.Update.{Scope}
use weave_adapters.Dhcp.Ledger.{AreDistinct}
use weave_adapters.Dhcp.Client.{
  Backend, Answer, ok, err, duplicate_wadapt_id, identify, identify_from, with_identity, has_id,
}

module _ {W : Type 0} (b : Backend W) where
  -- A scope whose identity is the one of its subnet, and has not been given out.
  abbrev pub IsFresh : List Text → Scope → Type 0
  IsFresh seen s = (s.wadapt_id ≡ b.derive_wadapt_id s.scope_id) × (has_id seen s.wadapt_id ≡ false)

  -- Each scope has its own subnet's identity, and no two share one.
  pub record AreIdentified (seen : List Text) (ss : List Scope) : Type 0 where
    pub fresh : All (IsFresh seen) ss
    pub distinct : AreDistinct ss

  ok-injective : {A : Type 0} {x y : A} → ok x ≡ ok y → x ≡ y
  ok-injective h = ground (arith, h)

  has_id-cons :
      (id t : Text) (seen : List Text)
      → has_id (id ∷ seen) t ≡ false
      → (text_eq id t ≡ false) × (has_id seen t ≡ false)
  unfolding has_id
  has_id-cons id t seen h = ground (arith, h)

  weaken :
      (id : Text) (seen : List Text) (ss : List Scope)
      → All (IsFresh (id ∷ seen)) ss
      → All (IsFresh seen) ss × All (λ t. text_eq id t.wadapt_id ≡ false) ss
  weaken id seen [] h = (tt, tt)
  weaken id seen (s ∷ ss) h =
      let rest = weaken id seen ss h.1 in
      let here = has_id-cons id s.wadapt_id seen h.0.1 in
      (((h.0.0, here.1), rest.0), (here.0, rest.1))

  -- how `identify` goes on behind the first scope
  abbrev cons_answer : List Text → Scope → Answer (List Scope) → Answer (List Scope)
  cons_answer seen s (err e) = err duplicate_wadapt_id
  cons_answer seen s (ok rest) =
      if has_id seen (b.derive_wadapt_id s.scope_id)
      then err duplicate_wadapt_id
      else ok (with_identity (b.derive_wadapt_id s.scope_id) s ∷ rest)

  identify_from-cons :
      (seen : List Text) (s : Scope) (ss : List Scope)
      → identify_from b seen (s ∷ ss)
        ≡ cons_answer seen s (identify_from b (b.derive_wadapt_id s.scope_id ∷ seen) ss)
  unfolding identify_from
  identify_from-cons seen s ss = either (identify_from b (b.derive_wadapt_id s.scope_id ∷ seen) ss)
    where
      either :
          (a : Answer (List Scope))
          → (elim a [
            | err e ↦ err duplicate_wadapt_id
            | ok rest ↦
                if has_id seen (b.derive_wadapt_id s.scope_id)
                then err duplicate_wadapt_id
                else ok (with_identity (b.derive_wadapt_id s.scope_id) s ∷ rest)
          ])
            ≡ cons_answer seen s a
      either (err e) = refl
      either (ok rest) = refl

  cons_answer-ok :
      (seen : List Text) (s : Scope) (a : Answer (List Scope)) (rs : List Scope)
      → cons_answer seen s a ≡ ok rs
      → (rest : List Scope) × (a ≡ ok rest)
        × (has_id seen (b.derive_wadapt_id s.scope_id) ≡ false)
        × (with_identity (b.derive_wadapt_id s.scope_id) s ∷ rest ≡ rs)
  cons_answer-ok seen s (err e) rs h = ground (arith, h)
  cons_answer-ok seen s (ok rest) rs h =
      elim (Bool-cases (has_id seen (b.derive_wadapt_id s.scope_id))) [
        | inl d ↦ ground (arith, h, d)
        | inr d ↦ (rest, refl, d, ground (arith, h, d))
      ]

  stamped :
      (seen : List Text) (s : Scope) (rest : List Scope)
      → has_id seen (b.derive_wadapt_id s.scope_id) ≡ false
      → All (IsFresh seen) rest
      → All (λ t. text_eq (b.derive_wadapt_id s.scope_id) t.wadapt_id ≡ false) rest
      → AreDistinct rest
      → AreIdentified seen (with_identity (b.derive_wadapt_id s.scope_id) s ∷ rest)
  unfolding with_identity
  stamped seen s rest new fresh apart d = record {
    fresh = ((refl, new), fresh);
    distinct = (apart, d);
  }

  nothing : (seen : List Text) (rs : List Scope) → identify_from b seen [] ≡ ok rs → [] ≡ rs
  unfolding identify_from
  nothing seen rs h = ok-injective h

  identify_from-AreIdentified :
      (seen : List Text) (ss rs : List Scope)
      → identify_from b seen ss ≡ ok rs
      → AreIdentified seen rs
  identify_from-AreIdentified seen [] rs h =
      subst (AreIdentified seen) (nothing seen rs h) (record { fresh = tt; distinct = tt })
  identify_from-AreIdentified seen (s ∷ ss) rs h =
      let id = b.derive_wadapt_id s.scope_id in
      let (rest, e, new, r) = cons_answer-ok seen s _ rs (sym (identify_from-cons seen s ss) ∙ h) in
      let later = identify_from-AreIdentified (id ∷ seen) ss rest e in
      let (fresh, apart) = weaken id seen rest later.fresh in
      subst (AreIdentified seen) r (stamped seen s rest new fresh apart later.distinct)

  -- What `identify` lets through has each subnet's own identity, and no identity twice.
  pub identify-AreIdentified : (ss rs : List Scope) → identify b ss ≡ ok rs → AreIdentified [] rs
  unfolding identify
  identify-AreIdentified ss rs h = identify_from-AreIdentified [] ss rs h
