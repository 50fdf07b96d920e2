-- ===== src/Etag/Trimmed.antt =====
-- Space and weak markers around entity tags, which internal/core/etag/etag.go strips.
use mathlib.Core.List.{append_assoc}
use weave_adapters.Prelude.Text.{Text, is_blank, is_space, trim_left, trim_right, trim_space}
use weave_adapters.Prelude.{
  ℕ, ◌≡◌, ◌∙◌, sym, ap, subst, refl, Bool, true, false, ◌&&◌, List, [], ◌∷◌, ◌++◌, arith, ◌==◌,
  if◌then◌else◌,
}
use weave_adapters.Etag.{quote, comma, is_closed, is_quoted, without_weak, opaque_tag}
use weave_adapters.Etag.Listed.{
  IsTagText, quoted_onto, quoted, Marker, marker_text, Tag, tag_onto, Next, listed, IsSpaces,
  strong, weak, weak_lower,
}

pub is_blank-snoc : (xs : Text) (c : ℕ) → is_blank (xs ++ c ∷ []) ≡ false
is_blank-snoc [] c = refl
is_blank-snoc (x ∷ xs) c = refl

pub trim_right-snoc :
    (f : ℕ → Bool) (xs : Text) (c : ℕ) → f c ≡ false → trim_right f (xs ++ c ∷ []) ≡ xs ++ c ∷ []
unfolding trim_right
trim_right-snoc f [] c h = rw h refl
trim_right-snoc f (x ∷ xs) c h = rw (trim_right-snoc f xs c h, is_blank-snoc xs c) refl

pub trim_right-spaces : (e : Text) → IsSpaces e → trim_right is_space e ≡ []
unfolding trim_right
trim_right-spaces [] h = refl
trim_right-spaces (c ∷ e) h = rw (trim_right-spaces e h.1, h.0) refl

pub trim_right-append :
    (xs e : Text) → IsSpaces e → trim_right is_space (xs ++ e) ≡ trim_right is_space xs
unfolding trim_right
trim_right-append [] e h = trim_right-spaces e h
trim_right-append (x ∷ xs) e h =
    ap (λ r. if is_blank r && is_space x then [] else x ∷ r) (trim_right-append xs e h)

pub trim_left-append :
    (a xs : Text) (c : ℕ)
    → IsSpaces a
    → is_space c ≡ false
    → trim_left is_space (a ++ c ∷ xs) ≡ c ∷ xs
unfolding trim_left
trim_left-append [] xs c h n = rw n refl
trim_left-append (d ∷ a) xs c h n = rw h.0 (trim_left-append a xs c h.1 n)

-- how a list of tags begins, which is neither with a space nor with the wildcard, and how it ends
abbrev pub Begins : Text → Type 0
Begins l = (c : ℕ) × (cs : Text) × (l ≡ c ∷ cs) × (is_space c ≡ false) × ((c == 42) ≡ false)

abbrev pub EndsQuoted : Text → Type 0
EndsQuoted l = (xs : Text) × (l ≡ xs ++ quote ∷ [])

pub trim_space-core :
    (a core e : Text)
    → IsSpaces a
    → IsSpaces e
    → Begins core
    → EndsQuoted core
    → trim_space (a ++ (core ++ e)) ≡ core
unfolding trim_space
trim_space-core a core e h k (c, cs, b, n, w) (xs, z) =
    let left : trim_left is_space (a ++ (core ++ e)) ≡ core ++ e =
      subst (λ l. trim_left is_space (a ++ (l ++ e)) ≡ l ++ e) (sym b)
        (trim_left-append a (cs ++ e) c h n) in
    ap (trim_right is_space) left
    ∙ (trim_right-append core e k
        ∙ (ap (trim_right is_space) z ∙ (trim_right-snoc is_space xs quote refl ∙ sym z)))

pub tag_onto-Begins : (t : Tag) (rest : Text) → Begins (tag_onto t rest)
tag_onto-Begins t rest = go t.marker
  where
    go : (m : Marker) → Begins (marker_text m ++ quoted_onto t.body rest)
    go strong = (_, _, refl, refl, refl)
    go weak = (_, _, refl, refl, refl)
    go weak_lower = (_, _, refl, refl, refl)

pub tag_onto-append : (t : Tag) (xs ys : Text) → tag_onto t (xs ++ ys) ≡ tag_onto t xs ++ ys
tag_onto-append t xs ys =
    ap (λ l. marker_text t.marker ++ quote ∷ l) (sym (append_assoc t.body (quote ∷ xs) ys))
    ∙ sym (append_assoc (marker_text t.marker) (quoted_onto t.body xs) ys)

pub tag_onto-EndsQuoted : (t : Tag) (l : Text) → EndsQuoted l → EndsQuoted (tag_onto t l)
tag_onto-EndsQuoted t l (xs, e) =
    (tag_onto t xs, ap (tag_onto t) e ∙ tag_onto-append t xs (quote ∷ []))

pub last-EndsQuoted : (t : Tag) → EndsQuoted (tag_onto t [])
last-EndsQuoted t = (
  marker_text t.marker ++ quote ∷ t.body,
  sym (append_assoc (marker_text t.marker) (quote ∷ t.body) (quote ∷ [])),
)

pub listed-EndsQuoted : (t : Tag) (ns : List Next) → EndsQuoted (listed t ns)
listed-EndsQuoted t [] = last-EndsQuoted t
listed-EndsQuoted t (n ∷ ns) =
    let (xs, e) = listed-EndsQuoted n.tag ns in
    let front = n.before_comma ++ comma ∷ n.behind_comma in
    tag_onto-EndsQuoted t _ (
      front ++ xs,
      sym (append_assoc n.before_comma (comma ∷ n.behind_comma) (listed n.tag ns))
          ∙ (ap (λ l. front ++ l) e ∙ sym (append_assoc front xs (quote ∷ []))),
    )

pub listed-Begins : (t : Tag) (ns : List Next) → Begins (listed t ns)
listed-Begins t [] = tag_onto-Begins t []
listed-Begins t (n ∷ ns) = tag_onto-Begins t _

pub is_closed-text : (b : Text) → IsTagText b → is_closed (b ++ quote ∷ []) ≡ true
unfolding is_closed
is_closed-text [] h = refl
is_closed-text (c ∷ []) h = ground (arith, h)
is_closed-text (c ∷ d ∷ b) h = ground (arith, h.0, is_closed-text (d ∷ b) h.1)

pub without_weak-quote : (b : Text) → without_weak (quote ∷ b) ≡ quote ∷ b
unfolding without_weak
without_weak-quote [] = refl
without_weak-quote (c ∷ b) = refl

pub without_weak-tag : (t : Tag) → without_weak (tag_onto t []) ≡ quoted t.body
without_weak-tag t = go t.marker
  where
    go : (m : Marker) → without_weak (marker_text m ++ quoted t.body) ≡ quoted t.body
    go strong = without_weak-quote (t.body ++ quote ∷ [])
    go weak = unfold without_weak in refl
    go weak_lower = unfold without_weak in refl

-- The space around a tag and its marker do not count.
pub opaque_tag-tag :
    (a : Text) (t : Tag) (e : Text)
    → IsSpaces a
    → IsSpaces e
    → IsTagText t.body
    → opaque_tag (a ++ tag_onto t e) ≡ quoted t.body
unfolding opaque_tag is_quoted
opaque_tag-tag a t e k l h =
    rw
      (
        ap (λ x. trim_space (a ++ x)) (tag_onto-append t [] e),
        trim_space-core a (tag_onto t []) e k l (tag_onto-Begins t []) (last-EndsQuoted t),
        without_weak-tag t,
        is_closed-text t.body h,
      )
      refl
