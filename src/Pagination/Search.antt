-- ===== src/Pagination/Search.antt =====
-- `slices.BinarySearchFunc` on a collection sorted by key.
use weave_adapters.Prelude.{
  ℕ, zero, suc, ◌+◌, ◌/◌, ◌≤◌, ◌<◌, ◌≡◌, refl, Bool, true, false, ◌&&◌, List, [], ◌∷◌, Option, none,
  some, arith, ltb, if◌then◌else◌, length, get_elem?, drop, All, Ordering, Bool-cases, inl, inr,
  ◌⊎◌, lt→ltb, ltb→lt, not_ltb→le, sym, ◌∙◌,
}
use native.Mathlib.Numerals.{add-one}
use weave_adapters.Pagination.Keys.{
  Bytes, compare_bytes, is_lt, is_eq, is_gt, compare_bytes_eq, compare_bytes_trans,
  compare_bytes_flip, IsSorted,
}

-- where `Slice` starts: behind the key, if it is there
abbrev pub step_over : ℕ × Bool → ℕ
step_over (i, found) = if found then i + 1 else i

module _ {ℓ} {T : Type ℓ} (key : T → Bytes) where
  -- `cmp(x[h], target) < 0`; the search only asks below the length
  abbrev is_below : Bytes → Option T → Bool
  is_below target none = false
  is_below target (some x) = is_lt (compare_bytes (key x) target)

  abbrev is_at : Bytes → Option T → Bool
  is_at target none = false
  is_at target (some x) = is_eq (compare_bytes (key x) target)

  -- `for i < j`, on fuel
  pub bisect : ℕ → List T → Bytes → ℕ → ℕ → ℕ
  bisect zero items target i j = i
  bisect (suc fuel) items target i j =
      let h = (i + j) / 2 in
      let below = is_below target (get_elem? items h) in
      let rest = bisect fuel items target (if below then h + 1 else i) (if below then j else h) in
      if ltb i j then rest else i

  -- the position, and whether the key is there
  unfoldable pub binary_search : List T → Bytes → ℕ × Bool
  unfolding bisect
  binary_search items target =
      let i = bisect (suc (length items)) items target 0 (length items) in
      (i, ltb i (length items) && is_at target (get_elem? items i))

  -- how many items, from the front, have a key below the target
  abbrev pub count_below : Bytes → List T → ℕ
  count_below target [] = 0
  count_below target (x ∷ xs) =
      let rest = count_below target xs in
      if is_lt (compare_bytes (key x) target) then suc rest else 0

  -- what a listing that resumes behind the target shows
  abbrev pub rest_after : Bytes → List T → List T
  rest_after target [] = []
  rest_after target (x ∷ xs) =
      let rest = rest_after target xs in
      if is_gt (compare_bytes (key x) target) then x ∷ xs else rest

  count_below-le-length :
      (target : Bytes) (items : List T) → count_below target items ≤ length items
  count_below-le-length target [] = omega arith
  count_below-le-length target (x ∷ xs) = ground (arith, count_below-le-length target xs)

  is_below_past :
      (x : T) (xs : List T) (target : Bytes) (h : ℕ)
      → All (λ y. compare_bytes (key x) (key y) ≡ Ordering.lt) xs
      → is_lt (compare_bytes (key x) target) ≡ false
      → is_below target (get_elem? xs h) ≡ false
  is_below_past x [] target h s b = refl
  is_below_past x (y ∷ ys) target zero s b =
      ground (arith, compare_bytes_trans (key x) (key y) target)
  is_below_past x (y ∷ ys) target (suc h) s b = is_below_past x ys target h s.1 b

  -- On a sorted collection the test of the search is a comparison of positions.
  is_below-ltb :
      (items : List T) (target : Bytes) (h : ℕ)
      → IsSorted key items
      → is_below target (get_elem? items h) ≡ ltb h (count_below target items)
  is_below-ltb [] target h s = ground arith
  is_below-ltb (x ∷ xs) target zero s = ground arith
  is_below-ltb (x ∷ xs) target (suc h) s =
      ground (arith, is_below-ltb xs target h s.1, is_below_past x xs target h s.0)

  bisect-count_below :
      (fuel : ℕ) (items : List T) (target : Bytes) (i j : ℕ)
      → IsSorted key items
      → i ≤ count_below target items
      → count_below target items ≤ j
      → j < fuel + i
      → bisect fuel items target i j ≡ count_below target items
  unfolding bisect
  bisect-count_below zero items target i j s lo hi f = absurd (omega arith)
  bisect-count_below (suc fuel) items target i j s lo hi f = elim (Bool-cases (ltb i j)) [
    | inr stop ↦ rw stop (ground arith)
    | inl more ↦ rw more (
        halve more (Bool-cases (is_below target (get_elem? items ((i + j) / 2))))
          (λ i' j' lo' hi' f'. bisect-count_below fuel items target i' j' s lo' hi' f'))
  ]
    where
      h : ℕ
      h = (i + j) / 2

      sorted : is_below target (get_elem? items h) ≡ ltb h (count_below target items)
      sorted = is_below-ltb items target h s

      halve :
          ltb i j ≡ true
          → (is_below target (get_elem? items h) ≡ true)
            ⊎ (is_below target (get_elem? items h) ≡ false)
          → ((i' j' : ℕ)
              → i' ≤ count_below target items
              → count_below target items ≤ j'
              → j' < fuel + i'
              → bisect fuel items target i' j' ≡ count_below target items)
          → bisect fuel items target
              (if is_below target (get_elem? items h) then h + 1 else i)
              (if is_below target (get_elem? items h) then j else h)
            ≡ count_below target items
      halve going (inl b) ih = rw b (
          ih (h + 1) j (omega (arith, ltb→lt h (count_below target items) (sym sorted ∙ b))) hi
            (omega arith))
      halve going (inr b) ih = rw b (
          ih i h lo (omega (arith, not_ltb→le h (count_below target items) (sym sorted ∙ b)))
            (omega (arith, ltb→lt i j going)))

  pub binary_search-count_below :
      (items : List T) (target : Bytes)
      → IsSorted key items
      → (binary_search items target).0 ≡ count_below target items
  unfolding binary_search
  binary_search-count_below items target s =
      bisect-count_below (suc (length items)) items target 0 (length items) s (omega arith)
        (count_below-le-length target items) (omega arith)

  pub rest_after_past :
      (x : T) (xs : List T) (target : Bytes)
      → All (λ y. compare_bytes (key x) (key y) ≡ Ordering.lt) xs
      → is_eq (compare_bytes (key x) target) ≡ true
      → rest_after target xs ≡ xs
  rest_after_past x [] target s e = refl
  rest_after_past x (y ∷ ys) target s e =
      ground (arith, compare_bytes_eq (key x) target, compare_bytes_flip (key x) (key y) s.0)

  abbrev found_at : Bytes → ℕ → List T → Bool
  found_at target c items = ltb c (length items) && is_at target (get_elem? items c)

  drop-step_over-suc :
      (c : ℕ) (f g : Bool) (x : T) (xs : List T)
      → f ≡ g
      → drop (step_over (suc c, f)) (x ∷ xs) ≡ drop (step_over (c, g)) xs
  drop-step_over-suc c true g x xs e = rw (← e) (rw add-one (rw add-one))
  drop-step_over-suc c false g x xs e = rw (← e)

  found_at-suc :
      (target : Bytes) (c : ℕ) (x : T) (xs : List T)
      → found_at target (suc c) (x ∷ xs) ≡ found_at target c xs
  found_at-suc target c x xs = ground arith

  drop-rest_after :
      (items : List T) (target : Bytes)
      → IsSorted key items
      → drop
          (step_over (count_below target items, found_at target (count_below target items) items))
          items
        ≡ rest_after target items
  drop-rest_after [] target s = refl
  drop-rest_after (x ∷ xs) target s =
      go (compare_bytes (key x) target) refl (drop-rest_after xs target s.1)
    where
      c : ℕ
      c = count_below target xs

      goal : Ordering → Type ℓ
      goal o =
          drop
            (step_over (
              if is_lt o then suc c else 0,
              found_at target (if is_lt o then suc c else 0) (x ∷ xs),
            ))
            (x ∷ xs)
          ≡ (if is_gt o then x ∷ xs else rest_after target xs)

      go :
          (o : Ordering)
          → compare_bytes (key x) target ≡ o
          → drop (step_over (c, found_at target c xs)) xs ≡ rest_after target xs
          → goal (compare_bytes (key x) target)
      go Ordering.lt e ih = rw e (drop-step_over-suc c _ _ x xs (found_at-suc target c x xs) ∙ ih)
      go Ordering.eq e ih =
          rw (e, lt→ltb 0 (suc (length xs)) (omega arith), e)
            (sym (rest_after_past x xs target s.0 (rw e)))
      go Ordering.gt e ih = rw (e, lt→ltb 0 (suc (length xs)) (omega arith), e)

  -- On a sorted collection the search, with the step over a key that is there, finds where the
  -- items behind the key begin.
  pub drop-binary_search :
      (items : List T) (target : Bytes)
      → IsSorted key items
      → drop (step_over (binary_search items target)) items ≡ rest_after target items
  unfolding binary_search
  drop-binary_search items target s =
      rw
        (bisect-count_below (suc (length items)) items target 0 (length items) s (omega arith)
          (count_below-le-length target items) (omega arith))
        (drop-rest_after items target s)

  -- The start lies within the collection.
  pub binary_search-le-length :
      (items : List T) (target : Bytes)
      → IsSorted key items
      → step_over (binary_search items target) ≤ length items
  unfolding binary_search
  binary_search-le-length items target s =
      rw
        (bisect-count_below (suc (length items)) items target 0 (length items) s (omega arith)
          (count_below-le-length target items) (omega arith))
        (bounded (ltb (count_below target items) (length items))
          (is_at target (get_elem? items (count_below target items))) refl)
    where
      bounded :
          (a b : Bool)
          → ltb (count_below target items) (length items) ≡ a
          → step_over (count_below target items, a && b) ≤ length items
      bounded true true e = omega (arith, ltb→lt (count_below target items) (length items) e)
      bounded true false e = count_below-le-length target items
      bounded false b e = count_below-le-length target items
