-- ===== src/Etag/Tests.antt =====
-- A header of two tags, the first with a comma.
use weave_adapters.Prelude.Text.{Text, contains}
use weave_adapters.Prelude.{◌≡◌, refl, [], ◌∷◌, ◌++◌}
use weave_adapters.Etag.{matches}
use weave_adapters.Etag.Listed.{IsTagText, strong, weak, Tag, tag_onto, Next, listed, bodies}
use weave_adapters.Etag.Matching.{matches-listed}

abbrev first : Text
first = 97 ∷ 44 ∷ 98 ∷ []

abbrev second : Text
second = 99 ∷ []

abbrev first-IsTagText : IsTagText first
first-IsTagText = (refl, (refl, (refl, tt)))

abbrev second-IsTagText : IsTagText second
second-IsTagText = (refl, tt)

-- `"a,b" , W/"c"` in space, and the strong tag that it lists weakly
abbrev weak_second : Next
weak_second = record {
  before_comma = 32 ∷ [];
  behind_comma = 32 ∷ [];
  tag = record { marker = weak; body = second };
}

abbrev strong_tag : Text → Tag
strong_tag b = record { marker = strong; body = b }

matches-listed_example :
    matches
      ((32 ∷ []) ++ (listed (strong_tag first) (weak_second ∷ []) ++ 9 ∷ []))
      (tag_onto (strong_tag second) [])
    ≡ contains (bodies (strong_tag first) (weak_second ∷ [])) second
matches-listed_example =
    matches-listed (32 ∷ []) (9 ∷ []) (strong_tag first) (weak_second ∷ []) (strong_tag second)
      (refl, tt) (refl, tt) first-IsTagText (((refl, tt), (refl, tt), second-IsTagText), tt)
      second-IsTagText
