-- ===== src/Etag/Matching.antt =====
-- A header that lists entity tags matches exactly the tags that it lists.
use weave_adapters.Prelude.Text.{Text, text, text_eq, trim_space, contains}
use weave_adapters.Prelude.{
  ℕ, ◌≡◌, ◌∙◌, sym, ap, ap₂, false, ◌&&◌, ◌||◌, List, [], ◌∷◌, ◌++◌, arith, ◌==◌, All,
}
use weave_adapters.Etag.{quote, opaque_tag, any_tag, matches_tag, matches}
use weave_adapters.Etag.Listed.{
  IsTagText, quoted, Tag, tag_onto, Next, listed, bodies, IsSpaces, IsNext, etagc-not_quote, pieces,
  split_tags-listed,
}
use weave_adapters.Etag.Trimmed.{
  Begins, trim_space-core, listed-EndsQuoted, listed-Begins, opaque_tag-tag,
}

text_eq-snoc :
    (b w : Text) (c : ℕ)
    → All (λ d. (d == c) ≡ false) b
    → All (λ d. (d == c) ≡ false) w
    → text_eq (b ++ c ∷ []) (w ++ c ∷ []) ≡ text_eq b w
unfolding text_eq
text_eq-snoc [] [] c h k = ground arith
text_eq-snoc [] (d ∷ w) c h k = ground (arith, k.0)
text_eq-snoc (d ∷ b) [] c h k = ground (arith, h.0)
text_eq-snoc (d ∷ b) (e ∷ w) c h k = ap ((d == e) &&◌) (text_eq-snoc b w c h.1 k.1)

not_quotes : (b : Text) → IsTagText b → All (λ d. (d == quote) ≡ false) b
not_quotes [] h = tt
not_quotes (c ∷ b) h = (etagc-not_quote c h.0, not_quotes b h.1)

IsSpaces-nil : (e : Text) → IsSpaces e → IsSpaces (e ++ [])
IsSpaces-nil [] h = tt
IsSpaces-nil (c ∷ e) h = (h.0, IsSpaces-nil e h.1)

any_tag-contains :
    (a : Text) (t : Tag) (ns : List Next) (w : Text)
    → IsSpaces a
    → IsTagText t.body
    → All IsNext ns
    → IsTagText w
    → any_tag (pieces a t ns) (quoted w) ≡ contains (bodies t ns) w
unfolding any_tag contains text_eq
any_tag-contains a t [] w s h k l =
    rw (opaque_tag-tag a t [] s tt h)
      (ap (λ b. b || false) (text_eq-snoc t.body w quote (not_quotes t.body h) (not_quotes w l)))
any_tag-contains a t (n ∷ ns) w s h k l =
    rw (opaque_tag-tag a t (n.before_comma ++ []) s (IsSpaces-nil n.before_comma k.0.0) h) (
      ap₂ ◌||◌ (text_eq-snoc t.body w quote (not_quotes t.body h) (not_quotes w l))
        (any_tag-contains n.behind_comma n.tag ns w k.0.1 k.0.2 k.1 l))

matches-Begins :
    (header core etag : Text)
    → trim_space header ≡ core
    → Begins core
    → matches header etag ≡ matches_tag core (opaque_tag etag)
unfolding matches text_eq text
matches-Begins header core etag e (c, cs, b, n, w) =
    rw (e ∙ b, w) (ap (λ l. matches_tag l (opaque_tag etag)) (sym b))

matches_tag-listed :
    (t : Tag) (ns : List Next) (w : Tag)
    → IsTagText t.body
    → All IsNext ns
    → IsTagText w.body
    → matches_tag (listed t ns) (opaque_tag (tag_onto w [])) ≡ contains (bodies t ns) w.body
matches_tag-listed t ns w h k l =
    ap (matches_tag (listed t ns)) (opaque_tag-tag [] w [] tt tt l)
    ∙ (ap (λ ts. any_tag ts (quoted w.body)) (split_tags-listed t ns h k)
        ∙ any_tag-contains [] t ns w.body tt h k l)

-- A header that lists quoted tags, with space around them and a weak marker, in either case, in
-- front of any, matches a tag exactly when it lists one of the same quoted text, whichever of the two
-- is weak. The text may have commas.
pub matches-listed :
    (lead tail : Text) (t : Tag) (ns : List Next) (w : Tag)
    → IsSpaces lead
    → IsSpaces tail
    → IsTagText t.body
    → All IsNext ns
    → IsTagText w.body
    → matches (lead ++ (listed t ns ++ tail)) (tag_onto w []) ≡ contains (bodies t ns) w.body
matches-listed lead tail t ns w a e h k l =
    matches-Begins _ (listed t ns) (tag_onto w [])
      (trim_space-core lead (listed t ns) tail a e (listed-Begins t ns) (listed-EndsQuoted t ns))
      (listed-Begins t ns)
    ∙ matches_tag-listed t ns w h k l
