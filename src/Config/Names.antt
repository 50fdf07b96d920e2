-- ===== src/Config/Names.antt =====
-- That internal/core/config/key.go leaves no two keys with one flag or one variable.
use weave_adapters.Prelude.Text.{Text, text_eq, text_eq_iff, text_eq_refl}
use weave_adapters.Prelude.{
  ℕ, ◌≤◌, ◌≡◌, ◌≢◌, ◌⊎◌, ◌∙◌, refl, sym, ap, Bool, true, false, not, ◌&&◌, List, [], ◌∷◌, ◌++◌,
  ◌==◌, if◌then◌else◌, arith, All, inl, inr, Bool-cases,
}
use weave_adapters.Config.{
  Key, Spec, is_upper, lower, upper, prepend, words_from, words, join, flag_name, to_upper,
  env_prefix, env_name, reserved_flag, split_of, is_among, index_from, index,
}

-- letters, digits and dots
abbrev pub IsNameChar : ℕ → Type 0
IsNameChar c = ((97 ≤ c) × (c ≤ 122)) ⊎ (((65 ≤ c) × (c ≤ 90)) ⊎ (((48 ≤ c) × (c ≤ 57)) ⊎ (c ≡ 46)))

-- small letters and digits
abbrev IsWordChar : ℕ → Type 0
IsWordChar c = ((97 ≤ c) × (c ≤ 122)) ⊎ ((48 ≤ c) × (c ≤ 57))

abbrev IsWord : Text → Type 0
IsWord w = All IsWordChar w

abbrev AreWords : List Text → Type 0
AreWords [] = ⊥
AreWords (w ∷ []) = IsWord w
AreWords (w ∷ v ∷ ws) = IsWord w × AreWords (v ∷ ws)

prepend-AreWords : (c : ℕ) (ws : List Text) → IsWordChar c → AreWords ws → AreWords (prepend c ws)
prepend-AreWords c [] h k = elim k [ ]
prepend-AreWords c (w ∷ []) h k = (h, k)
prepend-AreWords c (w ∷ v ∷ ws) h k = ((h, k.0), k.1)

cons-AreWords : (ws : List Text) → AreWords ws → AreWords ([] ∷ ws)
cons-AreWords [] k = elim k [ ]
cons-AreWords (w ∷ ws) k = (tt, k)

lower-IsWordChar : (c : ℕ) → IsNameChar c → (c == 46) ≡ false → IsWordChar (lower c)
lower-IsWordChar c h d = ground (arith, h, d)

words_from-AreWords : (first : Bool) (t : Text) → All IsNameChar t → AreWords (words_from first t)
unfolding words_from
words_from-AreWords first [] h = tt
words_from-AreWords first (c ∷ cs) h = elim (Bool-cases (c == 46)) [
  | inl t ↦ rw t (cons-AreWords (words_from true cs) (words_from-AreWords true cs h.1))
  | inr f ↦
      let rest =
        prepend-AreWords (lower c) (words_from false cs) (lower-IsWordChar c h.0 f)
          (words_from-AreWords false cs h.1) in
      elim (Bool-cases (is_upper c && not first)) [
        | inl u ↦ rw (f, u) (cons-AreWords _ rest)
        | inr u ↦ rw (f, u) rest
      ]
]

-- the inverse of a join
unfoldable cut : ℕ → Text → List Text
cut sep [] = [] ∷ []
cut sep (c ∷ cs) = let rest = cut sep cs in if c == sep then [] ∷ rest else prepend c rest

abbrev IsFree : ℕ → Text → Type 0
IsFree sep w = All (λ c. (c == sep) ≡ false) w

cut-word : (sep : ℕ) (w : Text) → IsFree sep w → cut sep w ≡ w ∷ []
unfolding cut
cut-word sep [] h = refl
cut-word sep (c ∷ w) h = rw (h.0, cut-word sep w h.1) refl

cut-append : (sep : ℕ) (w t : Text) → IsFree sep w → cut sep (w ++ sep ∷ t) ≡ w ∷ cut sep t
unfolding cut
cut-append sep [] t h = ground arith
cut-append sep (c ∷ w) t h = rw (h.0, cut-append sep w t h.1) refl

module _ (sep : ℕ) (apart : (c : ℕ) → IsWordChar c → (c == sep) ≡ false) where
  word-IsFree : (w : Text) → IsWord w → IsFree sep w
  word-IsFree [] h = tt
  word-IsFree (c ∷ w) h = (apart c h.0, word-IsFree w h.1)

  cut-join : (ws : List Text) → AreWords ws → cut sep (join sep ws) ≡ ws
  unfolding join
  cut-join [] h = elim h [ ]
  cut-join (w ∷ []) h = cut-word sep w (word-IsFree w h)
  cut-join (w ∷ v ∷ ws) h =
      cut-append sep w (join sep (v ∷ ws)) (word-IsFree w h.0)
      ∙ ap (λ l. w ∷ l) (cut-join (v ∷ ws) h.1)

  -- Words that give the same text give the same words.
  join-injective :
      (ws vs : List Text) → AreWords ws → AreWords vs → join sep ws ≡ join sep vs → ws ≡ vs
  join-injective ws vs h k e = sym (cut-join ws h) ∙ ap (cut sep) e ∙ cut-join vs k

unfoldable to_lower : Text → Text
to_lower [] = []
to_lower (c ∷ cs) = lower c ∷ to_lower cs

abbrev IsBodyChar : ℕ → Type 0
IsBodyChar c = IsWordChar c ⊎ (c ≡ 95)

lower-upper : (c : ℕ) → IsBodyChar c → lower (upper c) ≡ c
lower-upper c h = ground (arith, h)

to_lower-to_upper : (t : Text) → All IsBodyChar t → to_lower (to_upper t) ≡ t
unfolding to_lower to_upper
to_lower-to_upper [] h = refl
to_lower-to_upper (c ∷ t) h = rw (lower-upper c h.0, to_lower-to_upper t h.1) refl

word-IsBodyChar : (w : Text) → IsWord w → All IsBodyChar w
word-IsBodyChar [] h = tt
word-IsBodyChar (c ∷ w) h = (inl h.0, word-IsBodyChar w h.1)

append-IsBodyChar : (a b : Text) → All IsBodyChar a → All IsBodyChar b → All IsBodyChar (a ++ b)
append-IsBodyChar [] b h k = k
append-IsBodyChar (c ∷ a) b h k = (h.0, append-IsBodyChar a b h.1 k)

join-IsBodyChar : (ws : List Text) → AreWords ws → All IsBodyChar (join 95 ws)
unfolding join
join-IsBodyChar [] h = elim h [ ]
join-IsBodyChar (w ∷ []) h = word-IsBodyChar w h
join-IsBodyChar (w ∷ v ∷ ws) h =
    append-IsBodyChar w (95 ∷ join 95 (v ∷ ws)) (word-IsBodyChar w h.0)
      (inr refl, join-IsBodyChar (v ∷ ws) h.1)

unfoldable behind : Text → Text → Text
behind [] t = t
behind (c ∷ p) [] = []
behind (c ∷ p) (d ∷ t) = behind p t

behind-append : (p t : Text) → behind p (p ++ t) ≡ t
unfolding behind
behind-append [] t = refl
behind-append (c ∷ p) t = behind-append p t

abbrev pub IsName : Text → Type 0
IsName t = All IsNameChar t

words-AreWords : (t : Text) → IsName t → AreWords (words t)
unfolding words
words-AreWords t h = words_from-AreWords true t h

flag_name-words : (a b : Text) → IsName a → IsName b → flag_name a ≡ flag_name b → words a ≡ words b
unfolding flag_name
flag_name-words a b h k e =
    join-injective 45 (λ c w. ground (arith, w)) (words a) (words b) (words-AreWords a h)
      (words-AreWords b k) e

env_name-words : (a b : Text) → IsName a → IsName b → env_name a ≡ env_name b → words a ≡ words b
unfolding env_name
env_name-words a b h k e =
    let ws = words-AreWords a h in
    let vs = words-AreWords b k in
    let body =
      sym (behind-append env_prefix (to_upper (join 95 (words a))))
      ∙ ap (behind env_prefix) e
      ∙ behind-append env_prefix (to_upper (join 95 (words b))) in
    join-injective 95 (λ c w. ground (arith, w)) (words a) (words b) ws vs
      (sym (to_lower-to_upper (join 95 (words a)) (join-IsBodyChar (words a) ws))
        ∙ ap to_lower body
        ∙ to_lower-to_upper (join 95 (words b)) (join-IsBodyChar (words b) vs))

-- The key has the flag and the variable of no key of the list.
abbrev pub IsApart : Key → Key → Type 0
IsApart k j = (flag_name j.name ≢ flag_name k.name) × (env_name j.name ≢ env_name k.name)

abbrev pub AreNamed : Spec → Type 0
AreNamed [] = Unit
AreNamed (k ∷ ks) = IsName k.name × AreNamed ks

-- No key has the flag or the variable of another, or the flag that is reserved.
abbrev pub IsUnambiguous : Spec → Type 0
IsUnambiguous [] = Unit
IsUnambiguous (k ∷ ks) = (flag_name k.name ≢ reserved_flag) × All (IsApart k) ks × IsUnambiguous ks

index_from-parts :
    (names splits : List Text) (k : Key) (ks : Spec)
    → index_from names splits (k ∷ ks) ≡ true
    → (text_eq (flag_name k.name) reserved_flag ≡ false)
      × (is_among (split_of k.name) splits ≡ false)
      × (index_from (k.name ∷ names) (split_of k.name ∷ splits) ks ≡ true)
unfolding index_from
index_from-parts names splits k ks h = ground (arith, h)

is_among-here : (t : Text) (seen : List Text) → is_among t (t ∷ seen) ≡ true
unfolding is_among
is_among-here t seen = rw (text_eq_refl t) refl

is_among-there :
    (t s : Text) (seen : List Text) → is_among t seen ≡ true → is_among t (s ∷ seen) ≡ true
unfolding is_among
is_among-there t s seen h = ground (arith, h)

not_same : (a : Bool) → a ≡ true → a ≡ false → ⊥
not_same a h k = ground (arith, h, k)

-- A key whose split was not seen has other words than one whose split was.
words_apart :
    (k j : Key) (splits : List Text)
    → is_among (split_of k.name) splits ≡ true
    → is_among (split_of j.name) splits ≡ false
    → words j.name ≢ words k.name
words_apart k j splits seen fresh e =
    not_same (is_among (split_of k.name) splits) seen
      (ap (λ ws. is_among (join 0 ws) splits) (sym e) ∙ fresh)

index_from-IsApart :
    (names splits : List Text) (k : Key) (ks : Spec)
    → IsName k.name
    → AreNamed ks
    → is_among (split_of k.name) splits ≡ true
    → index_from names splits ks ≡ true
    → All (IsApart k) ks
index_from-IsApart names splits k [] n m seen h = tt
index_from-IsApart names splits k (j ∷ ks) n m seen h =
    let (r, fresh, rest) = index_from-parts names splits j ks h in
    let apart = words_apart k j splits seen fresh in
    (
      (
        λ e. apart (flag_name-words j.name k.name m.0 n e),
        λ e. apart (env_name-words j.name k.name m.0 n e),
      ),
      index_from-IsApart (j.name ∷ names) (split_of j.name ∷ splits) k ks n m.1
          (is_among-there (split_of k.name) (split_of j.name) splits seen) rest,
    )

index_from-IsUnambiguous :
    (names splits : List Text) (spec : Spec)
    → AreNamed spec
    → index_from names splits spec ≡ true
    → IsUnambiguous spec
index_from-IsUnambiguous names splits [] n h = tt
index_from-IsUnambiguous names splits (k ∷ ks) n h =
    let (r, fresh, rest) = index_from-parts names splits k ks h in
    (
      λ e. not_same _ ((text_eq_iff (flag_name k.name) reserved_flag).1 e) r,
      index_from-IsApart (k.name ∷ names) (split_of k.name ∷ splits) k ks n.0 n.1
          (is_among-here (split_of k.name) splits) rest,
      index_from-IsUnambiguous (k.name ∷ names) (split_of k.name ∷ splits) ks n.1 rest,
    )

-- Where `index` finds no error in keys of letters, digits and dots, no key has the flag or the variable of another,
-- or the flag that is reserved.
pub index-IsUnambiguous : (spec : Spec) → AreNamed spec → index spec ≡ true → IsUnambiguous spec
unfolding index
index-IsUnambiguous spec n h = index_from-IsUnambiguous [] [] spec n h
