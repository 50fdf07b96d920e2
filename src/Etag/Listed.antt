-- ===== src/Etag/Listed.antt =====
-- Headers that list entity tags, and how internal/core/etag/etag.go splits them.
use weave_adapters.Prelude.Text.{Text, is_space}
use weave_adapters.Prelude.{
  ℕ, ◌≡◌, refl, Bool, true, false, ◌&&◌, List, [], ◌∷◌, ◌++◌, arith, ◌==◌, All, map,
}
use weave_adapters.Etag.{quote, comma, is_etagc, push, scan, split_tags}

-- The text of a tag; it may have commas, and no quote.
abbrev pub IsTagText : Text → Type 0
IsTagText b = All (λ c. is_etagc c ≡ true) b

pub and-false : (b : Bool) → (b && false) ≡ false
and-false true = refl
and-false false = refl

-- a tag in its quotes, in front of a rest
abbrev pub quoted_onto : Text → Text → Text
quoted_onto b rest = quote ∷ b ++ quote ∷ rest

abbrev pub quoted : Text → Text
quoted b = quoted_onto b []

-- the weak marker, in either case, or none
pub data Marker : Type 0 where
  strong weak weak_lower : Marker

abbrev pub marker_text : Marker → Text
marker_text strong = []
marker_text weak = 87 ∷ 47 ∷ []
marker_text weak_lower = 119 ∷ 47 ∷ []

pub record Tag : Type 0 where
  pub marker : Marker
  pub body : Text

abbrev pub tag_onto : Tag → Text → Text
tag_onto t rest = marker_text t.marker ++ quoted_onto t.body rest

-- A tag behind a comma, with the space in front of the comma and behind it.
pub record Next : Type 0 where
  pub before_comma : Text
  pub behind_comma : Text
  pub tag : Tag

-- tags as a client lists them
abbrev pub listed : Tag → List Next → Text
listed t [] = tag_onto t []
listed t (n ∷ ns) = tag_onto t (n.before_comma ++ comma ∷ (n.behind_comma ++ listed n.tag ns))

abbrev pub bodies : Tag → List Next → List Text
bodies t ns = t.body ∷ map (λ n. n.tag.body) ns

abbrev pub IsSpaces : Text → Type 0
IsSpaces s = All (λ c. is_space c ≡ true) s

abbrev pub IsNext : Next → Type 0
IsNext n = IsSpaces n.before_comma × IsSpaces n.behind_comma × IsTagText n.tag.body

pub etagc-not_quote : (c : ℕ) → is_etagc c ≡ true → (c == quote) ≡ false
etagc-not_quote c h = ground arith

-- in quotes, up to the one that ends the tag
pub scan-text :
    (b rest t : Text) (ts : List Text) (q : Bool)
    → IsTagText b
    → scan false rest ≡ (t ∷ ts, q)
    → scan true (b ++ quote ∷ rest) ≡ ((b ++ quote ∷ t) ∷ ts, q)
unfolding scan push
scan-text [] rest t ts q h e = rw e refl
scan-text (c ∷ b) rest t ts q h e =
    rw (etagc-not_quote c h.0, and-false (c == comma), scan-text b rest t ts q h.1 e) refl

pub scan-quoted :
    (b rest t : Text) (ts : List Text) (q : Bool)
    → IsTagText b
    → scan false rest ≡ (t ∷ ts, q)
    → scan false (quoted_onto b rest) ≡ (quoted_onto b t ∷ ts, q)
unfolding scan push
scan-quoted b rest t ts q h e = rw (scan-text b rest t ts q h e) refl

pub scan-comma :
    (l : Text) (ts : List Text) (q : Bool)
    → scan false l ≡ (ts, q)
    → scan false (comma ∷ l) ≡ ([] ∷ ts, q)
unfolding scan
scan-comma l ts q e = rw e refl

-- neither a quote nor a comma
abbrev pub IsPlain : Text → Type 0
IsPlain p = All (λ c. ((c == quote) ≡ false) × ((c == comma) ≡ false)) p

pub scan-plain :
    (p rest t : Text) (ts : List Text) (q : Bool)
    → IsPlain p
    → scan false rest ≡ (t ∷ ts, q)
    → scan false (p ++ rest) ≡ ((p ++ t) ∷ ts, q)
unfolding scan push
scan-plain [] rest t ts q h e = e
scan-plain (c ∷ p) rest t ts q h e = rw (h.0.0, h.0.1, scan-plain p rest t ts q h.1 e) refl

pub IsSpaces-IsPlain : (p : Text) → IsSpaces p → IsPlain p
IsSpaces-IsPlain [] h = tt
IsSpaces-IsPlain (c ∷ p) h = ((ground (arith, h.0), ground (arith, h.0)), IsSpaces-IsPlain p h.1)

pub marker_text-IsPlain : (m : Marker) → IsPlain (marker_text m)
marker_text-IsPlain strong = tt
marker_text-IsPlain weak = ((refl, refl), ((refl, refl), tt))
marker_text-IsPlain weak_lower = ((refl, refl), ((refl, refl), tt))

pub scan-tag :
    (t : Tag) (rest x : Text) (ts : List Text) (q : Bool)
    → IsTagText t.body
    → scan false rest ≡ (x ∷ ts, q)
    → scan false (tag_onto t rest) ≡ (tag_onto t x ∷ ts, q)
scan-tag t rest x ts q h e =
    scan-plain (marker_text t.marker) (quoted_onto t.body rest) (quoted_onto t.body x) ts q
      (marker_text-IsPlain t.marker) (scan-quoted t.body rest x ts q h e)

-- the pieces of a list: its tags with the space around them
abbrev pub pieces : Text → Tag → List Next → List Text
pieces a t [] = (a ++ tag_onto t []) ∷ []
pieces a t (n ∷ ns) = (a ++ tag_onto t (n.before_comma ++ [])) ∷ pieces n.behind_comma n.tag ns

-- The list splits into its tags, whatever commas they have.
pub scan-listed :
    (a : Text) (t : Tag) (ns : List Next)
    → IsSpaces a
    → IsTagText t.body
    → All IsNext ns
    → scan false (a ++ listed t ns) ≡ (pieces a t ns, false)
scan-listed a t [] s h k =
    scan-plain a (tag_onto t []) (tag_onto t []) [] false (IsSpaces-IsPlain a s)
      (scan-tag t [] [] [] false h (unfold scan in refl))
scan-listed a t (n ∷ ns) s h k =
    let rest = n.behind_comma ++ listed n.tag ns in
    let later = scan-listed n.behind_comma n.tag ns k.0.1 k.0.2 k.1 in
    scan-plain a (tag_onto t (n.before_comma ++ comma ∷ rest)) (tag_onto t (n.before_comma ++ []))
      (pieces n.behind_comma n.tag ns) false (IsSpaces-IsPlain a s)
      (scan-tag t (n.before_comma ++ comma ∷ rest) (n.before_comma ++ []) _ false h (
        scan-plain n.before_comma (comma ∷ rest) [] _ false (IsSpaces-IsPlain n.before_comma k.0.0)
          (scan-comma rest _ false later)))

pub split_tags-listed :
    (t : Tag) (ns : List Next)
    → IsTagText t.body
    → All IsNext ns
    → split_tags (listed t ns) ≡ pieces [] t ns
unfolding split_tags
split_tags-listed t ns h k = rw (scan-listed [] t ns tt h k) refl
