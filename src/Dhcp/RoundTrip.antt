-- ===== src/Dhcp/RoundTrip.antt =====
-- Printing and reading addresses.
use weave_adapters.Prelude.Text.{Text}
use weave_adapters.Prelude.{
  ℕ, ◌+◌, ◌*◌, ◌/◌, ◌%◌, ◌≤◌, ◌<◌, ◌⊎◌, ◌≡◌, refl, sym, ap, subst, ◌∙◌, true, false, none, some,
  List, [], ◌∷◌, ◌++◌, arith, ltb, Bool-cases, Option-cases, All, inl, inr, le→not_ltb, ltb→lt,
  not_ltb→le,
}
use weave_adapters.Dhcp.Addr.{
  Addr, Octet, no_digits, dot, digit, is_digit, push_digit, is_full, four, fields, parse_ip_v4,
  append_decimal, addr_string,
}

-- The four numbers are bytes.
pub record IsAddr (a : Addr) : Type 0 where
  pub byte₀ : a.b₀ < 256
  pub byte₁ : a.b₁ < 256
  pub byte₂ : a.b₂ < 256
  pub byte₃ : a.b₃ < 256

abbrev begun_at : ℕ → Octet
begun_at v = record { val = v; begun = true }

-- a digit that opens an octet
fields-first :
    (d : ℕ) (cs : Text) (fs : List ℕ)
    → d < 10
    → fields (digit d ∷ cs) fs no_digits ≡ fields cs fs (begun_at d)
unfolding fields
fields-first d cs fs h = ground arith

-- a digit behind others
fields-more :
    (v d : ℕ) (cs : Text) (fs : List ℕ)
    → 0 < v
    → d < 10
    → v * 10 + d < 256
    → fields (digit d ∷ cs) fs (begun_at v) ≡ fields cs fs (begun_at (v * 10 + d))
unfolding fields
fields-more v d cs fs p h k = ground arith

fields-append_long :
    (v : ℕ) (cs : Text) (fs : List ℕ)
    → v < 256
    → 10 ≤ v
    → fields (append_decimal v cs) fs no_digits ≡ fields cs fs (begun_at v)
fields-append_long v cs fs h k = elim (Bool-cases (ltb v 100)) [
  | inl e ↦
      rw (le→not_ltb v 10 k, e)
        (fields-first (v / 10) (digit (v % 10) ∷ cs) fs (omega (arith, ltb→lt v 100 e))
          ∙ (fields-more (v / 10) (v % 10) cs fs (omega arith) (omega arith)
                (omega (arith, ltb→lt v 100 e))
              ∙ ap (λ w. fields cs fs (begun_at w)) (omega arith)))
  | inr e ↦
      rw (le→not_ltb v 10 k, e)
        (fields-first (v / 100) (digit (v / 10 % 10) ∷ digit (v % 10) ∷ cs) fs (omega arith)
          ∙ (fields-more (v / 100) (v / 10 % 10) (digit (v % 10) ∷ cs) fs
                (omega (arith, not_ltb→le v 100 e)) (omega arith) (omega arith)
              ∙ (fields-more (v / 100 * 10 + v / 10 % 10) (v % 10) cs fs
                    (omega (arith, not_ltb→le v 100 e)) (omega arith) (omega arith)
                  ∙ ap (λ w. fields cs fs (begun_at w)) (omega arith))))
]

fields-append_decimal :
    (v : ℕ) (cs : Text) (fs : List ℕ)
    → v < 256
    → fields (append_decimal v cs) fs no_digits ≡ fields cs fs (begun_at v)
fields-append_decimal v cs fs h = elim (Bool-cases (ltb v 10)) [
  | inl e ↦ rw e (fields-first v cs fs (ltb→lt v 10 e))
  | inr e ↦ fields-append_long v cs fs h (not_ltb→le v 10 e)
]

-- a dot behind an octet, with something behind the dot
fields-dot :
    (v c : ℕ) (cs : Text) (fs : List ℕ)
    → is_full fs ≡ false
    → fields (dot ∷ c ∷ cs) fs (begun_at v) ≡ fields (c ∷ cs) (fs ++ v ∷ []) no_digits
unfolding fields
fields-dot v c cs fs e = simp e

-- A text that `append_decimal` has added to is not blank.
append_decimal-cons : (v : ℕ) (t : Text) → (c : ℕ) × (cs : Text) × (append_decimal v t ≡ c ∷ cs)
append_decimal-cons v t = elim (Bool-cases (ltb v 10)) [
  | inl e ↦ rw e (digit v, t, refl)
  | inr e ↦ elim (Bool-cases (ltb v 100)) [
    | inl g ↦ rw (e, g) (digit (v / 10), digit (v % 10) ∷ t, refl)
    | inr g ↦ rw (e, g) (digit (v / 100), digit (v / 10 % 10) ∷ digit (v % 10) ∷ t, refl)
  ]
]

fields-octet :
    (v w : ℕ) (t : Text) (fs : List ℕ)
    → v < 256
    → is_full fs ≡ false
    → fields (append_decimal v (dot ∷ append_decimal w t)) fs no_digits
      ≡ fields (append_decimal w t) (fs ++ v ∷ []) no_digits
fields-octet v w t fs h e =
    let (c, cs, k) = append_decimal-cons w t in
    fields-append_decimal v (dot ∷ append_decimal w t) fs h ∙ rw k (fields-dot v c cs fs e)

-- An address of four bytes reads back from its text as itself.
pub parse_ip_v4-addr_string : (a : Addr) → IsAddr a → parse_ip_v4 (addr_string a) ≡ some a
unfolding parse_ip_v4 addr_string
parse_ip_v4-addr_string a h =
    fields-octet a.b₀ a.b₁ _ [] h.byte₀ refl
    ∙ (fields-octet a.b₁ a.b₂ _ _ h.byte₁ refl
        ∙ (fields-octet a.b₂ a.b₃ [] _ h.byte₂ refl
            ∙ (fields-append_decimal a.b₃ [] _ h.byte₃ ∙ unfold fields in refl)))

-- Two addresses with one text are one.
pub addr_string-injective :
    (a b : Addr) → IsAddr a → IsAddr b → addr_string a ≡ addr_string b → a ≡ b
addr_string-injective a b h k e = cc (parse_ip_v4-addr_string a h, parse_ip_v4-addr_string b k)

abbrev AreBytes : List ℕ → Type 0
AreBytes = All (λ n. n < 256)

AreBytes-snoc : (fs : List ℕ) (n : ℕ) → AreBytes fs → n < 256 → AreBytes (fs ++ n ∷ [])
AreBytes-snoc [] n h k = (k, tt)
AreBytes-snoc (f ∷ fs) n h k = (h.0, AreBytes-snoc fs n h.1 k)

push_digit-le : (c : ℕ) (o : Octet) {p : Octet} → push_digit c o ≡ some p → p.val < 256
push_digit-le c o e = ground arith

four-IsAddr :
    (fs : List ℕ) (n : ℕ) (a : Addr) → AreBytes fs → n < 256 → four fs n ≡ some a → IsAddr a
four-IsAddr [] n a h k e = ground arith
four-IsAddr (x ∷ []) n a h k e = ground arith
four-IsAddr (x ∷ y ∷ []) n a h k e = ground arith
four-IsAddr (x ∷ y ∷ z ∷ []) n a h k e =
    subst IsAddr (ground arith) (record { byte₀ = h.0; byte₁ = h.1.0; byte₂ = h.1.1.0; byte₃ = k })
four-IsAddr (x ∷ y ∷ z ∷ w ∷ fs) n a h k e = ground arith

fields-step :
    (c : ℕ) (cs : Text) (fs : List ℕ) (o : Octet)
    → (fields (c ∷ cs) fs o ≡ none)
      ⊎ (((p : Octet) × (push_digit c o ≡ some p) × (fields (c ∷ cs) fs o ≡ fields cs fs p))
          ⊎ (fields (c ∷ cs) fs o ≡ fields cs (fs ++ o.val ∷ []) no_digits))
unfolding fields
fields-step c cs fs o = elim (Bool-cases (is_digit c)) [
  | inl d ↦ elim (Option-cases (push_digit c o)) [
    | inl n ↦ inl (ground arith)
    | inr (p, q) ↦ inr (inl (p, q, ground arith))
  ]
  | inr d ↦ ground arith
]

fields-IsAddr :
    (cs : Text) (fs : List ℕ) (o : Octet) (a : Addr)
    → AreBytes fs
    → o.val < 256
    → fields cs fs o ≡ some a
    → IsAddr a
fields-IsAddr [] fs o a h k e = unfold fields in four-IsAddr fs o.val a h k e
fields-IsAddr (c ∷ cs) fs o a h k e = elim (fields-step c cs fs o) [
  | inl n ↦ ground (arith, n, e)
  | inr (inl (p, q, g)) ↦ fields-IsAddr cs fs p a h (push_digit-le c o q) (sym g ∙ e)
  | inr (inr g) ↦
      fields-IsAddr cs (fs ++ o.val ∷ []) no_digits a (AreBytes-snoc fs o.val h k) (omega arith)
        (sym g ∙ e)
]

-- Everything that is read is four bytes.
pub parse_ip_v4-IsAddr : (s : Text) (a : Addr) → parse_ip_v4 s ≡ some a → IsAddr a
unfolding parse_ip_v4
parse_ip_v4-IsAddr s a e = fields-IsAddr s [] no_digits a tt (omega arith) e
