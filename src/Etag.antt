-- ===== src/Etag.antt =====
-- internal/core/etag/etag.go: `Matches` of an If-None-Match header. The hash of `Compute` is not in
-- the model. The header is read by code points: all that is tested for is ASCII, and a character
-- beyond it is refused by its bytes as by its code point.
pub mod Listed
pub mod Trimmed
pub mod Matching
mod Tests
use weave_adapters.Prelude.Text.{Text, text, text_eq, is_blank, trim_space}
use weave_adapters.Prelude.{
  ℕ, Bool, true, false, not, ◌&&◌, ◌||◌, List, [], ◌∷◌, ◌++◌, leb, ◌==◌, if◌then◌else◌,
}

abbrev pub quote : ℕ
quote = 34

abbrev pub comma : ℕ
comma = 44

-- RFC 9110's etagc, as the loop at the end of `opaqueTag` tests it
abbrev pub is_etagc : ℕ → Bool
is_etagc c = c == 33 || (leb 35 c && leb c 126)

-- behind the opening quote: text up to a quote that ends it
unfoldable pub is_closed : Text → Bool
is_closed [] = false
is_closed (c ∷ []) = c == quote
is_closed (c ∷ d ∷ cs) = is_etagc c && is_closed (d ∷ cs)

unfoldable pub is_quoted : Text → Bool
is_quoted [] = false
is_quoted (c ∷ cs) = c == quote && is_closed cs

-- the weak marker, in either case
unfoldable pub without_weak : Text → Text
without_weak (c ∷ d ∷ cs) = if (c == 87 || c == 119) && d == 47 then cs else c ∷ d ∷ cs
without_weak cs = cs

unfoldable pub opaque_tag : Text → Text
opaque_tag value = let v = without_weak (trim_space value) in if is_quoted v then v else []

-- a character in front of the first piece
unfoldable pub push : ℕ → List Text → List Text
push c [] = (c ∷ []) ∷ []
push c (t ∷ ts) = (c ∷ t) ∷ ts

-- the loop of `splitTags`: the pieces, and whether a quote is left open
unfoldable pub scan : Bool → Text → List Text × Bool
scan q [] = ([] ∷ [], q)
scan q (c ∷ cs) =
    let rest = scan (if c == quote then not q else q) cs in
    if c == comma && not q then ([] ∷ rest.0, rest.1) else (push c rest.0, rest.1)

-- `strings.Split(header, ",")`
unfoldable pub split : Text → List Text
split [] = [] ∷ []
split (c ∷ cs) = let rest = split cs in if c == comma then [] ∷ rest else push c rest

unfoldable pub split_tags : Text → List Text
split_tags header = let tags = scan false header in if tags.1 then split header else tags.0

unfoldable pub any_tag : List Text → Text → Bool
any_tag [] want = false
any_tag (t ∷ ts) want = text_eq (opaque_tag t) want || any_tag ts want

abbrev pub matches_tag : Text → Text → Bool
matches_tag header want = if is_blank want then false else any_tag (split_tags header) want

unfoldable pub matches : Text → Text → Bool
matches if_none_match etag =
    let header = trim_space if_none_match in
    if is_blank header
    then false
    else if text_eq header (text "*")
    then true
    else matches_tag header (opaque_tag etag)
