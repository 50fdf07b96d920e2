-- ===== src/Pagination/Walk.antt =====
-- A client's walk over a collection: it asks for a page, and as long as there is a token it sends
-- that back.
use mathlib.Core.List.{append_assoc}
use weave_adapters.Prelude.Int.{pos, add64_pos}
use weave_adapters.Prelude.{
  ℕ, zero, suc, ◌+◌, ◌-◌, ◌^◌, ◌≤◌, ◌<◌, ◌≡◌, refl, sym, ap, subst, ◌∙◌, true, false, not, List, [],
  ◌∷◌, ◌++◌, Option, none, some, arith, ltb, if◌then◌else◌, length, take, drop, min, length-drop,
  length-take, take-append-drop, Bool-cases, inl, inr, ◌⊎◌, Ordering, All, lt→ltb, le→not_ltb,
  ltb→lt, not_ltb→le,
}
use weave_adapters.Pagination.Keys.{Bytes, compare_bytes, compare_bytes_refl, IsSorted}
use weave_adapters.Pagination.Search.{
  rest_after, rest_after_past, drop-binary_search, binary_search-le-length,
}
use weave_adapters.Pagination.Token.{
  Codec, Faithful, is_empty, encode_token, max_key_bytes, max_token_len,
}
use weave_adapters.Pagination.Page.{Paginator, next_token, parse_token}
use weave_adapters.Pagination.Parse.{parse_token-fitting}
use weave_adapters.Pagination.Slice.{
  Url, NextPage, no_next, page_for, last?, next, minted, cut, start_of, slice,
}

module _ {ℓ} {T : Type ℓ} where
  last?-split : (l : List T) {x : T} → last? l ≡ some x → (ys : List T) × (l ≡ ys ++ x ∷ [])
  last?-split [] h = cc
  last?-split (y ∷ []) h = ([], ground arith)
  last?-split (y ∷ z ∷ l) h = let (ys, e) = last?-split (z ∷ l) h in (y ∷ ys, ap (◌∷◌ y) e)

  last?-some : (l : List T) → 0 < length l → (x : T) × (last? l ≡ some x)
  last?-some [] h = absurd (omega arith)
  last?-some (y ∷ []) h = (y, refl)
  last?-some (y ∷ z ∷ l) h = last?-some (z ∷ l) (omega arith)

  take_all : (n : ℕ) (l : List T) → length l ≤ n → take n l ≡ l
  take_all zero [] h = refl
  take_all zero (x ∷ l) h = absurd (omega arith)
  take_all (suc n) [] h = refl
  take_all (suc n) (x ∷ l) h = ap (◌∷◌ x) (take_all n l (omega arith))

  -- a collection, cut behind the last item of a page
  split_at :
      (st n : ℕ) (items rest ys : List T) (x : T)
      → drop st items ≡ rest
      → take n rest ≡ ys ++ x ∷ []
      → items ≡ (take st items ++ ys) ++ x ∷ drop n rest
  split_at st n items rest ys x d e =
      sym (take-append-drop st items)
      ∙ ap (λ l. take st items ++ l)
          (d
            ∙ sym (take-append-drop n rest)
            ∙ ap (λ l. l ++ drop n rest) e
            ∙ append_assoc ys (x ∷ []) (drop n rest))
      ∙ sym (append_assoc (take st items) ys (x ∷ drop n rest))

  All-at : (P : T → Type 0) (pre : List T) (x : T) (post : List T) → All P (pre ++ x ∷ post) → P x
  All-at P [] x post h = h.0
  All-at P (y ∷ pre) x post h = All-at P pre x post h.1

module _ {ℓ} {T : Type ℓ} (key : T → Bytes) where
  -- Behind a key of the collection come the items that follow it.
  rest_after-split :
      (pre : List T) (x : T) (post : List T)
      → IsSorted key (pre ++ x ∷ post)
      → rest_after key (key x) (pre ++ x ∷ post) ≡ post
  rest_after-split [] x post s =
      rw (compare_bytes_refl (key x))
        (rest_after_past key x post (key x) s.0 (rw (compare_bytes_refl (key x))))
  rest_after-split (y ∷ pre) x post s =
      rw (All-at (λ z. compare_bytes (key y) (key z) ≡ Ordering.lt) pre x post s.0)
        (rest_after-split pre x post s.1)

  -- what a listing that resumes behind `after` has to show; it begins at the front if there is none
  abbrev pub remaining : List T → Bytes → List T
  remaining items after = if not (is_empty after) then rest_after key after items else items

  drop-start_of :
      (items : List T) (after : Bytes)
      → IsSorted key items
      → drop (start_of key items after) items ≡ remaining items after
  drop-start_of items [] s = refl
  drop-start_of items (c ∷ cs) s = drop-binary_search key items (c ∷ cs) s

  start_of-le-length :
      (items : List T) (after : Bytes)
      → IsSorted key items
      → start_of key items after ≤ length items
  start_of-le-length items [] s = omega arith
  start_of-le-length items (c ∷ cs) s = binary_search-le-length key items (c ∷ cs) s

-- A key that a token can carry and a client can send back: its token is within the length bound.
pub record IsKey (codec : Codec) (scope key : Bytes) : Type 0 where
  pub not_empty : is_empty key ≡ false
  pub short : length key ≤ max_key_bytes
  pub carried : Faithful codec scope key
  pub fits : length (encode_token codec scope key) ≤ max_token_len scope

module _ (codec : Codec) (param : Bytes) (p : Paginator) where
  next_token-IsKey :
      (k : Bytes)
      → IsKey codec p.scope k
      → next_token codec p k ≡ some (encode_token codec p.scope k)
  unfolding next_token
  next_token-IsKey k h = rw (h.not_empty, le→not_ltb max_key_bytes (length k) h.short)

  next-IsKey :
      (u : Url) (k : Bytes)
      → IsKey codec p.scope k
      → next codec param p (some u) k
        ≡ some (page_for param (some u) (encode_token codec p.scope k))
  unfolding next
  next-IsKey u k h = rw (next_token-IsKey k h, next)

module _ {ℓ} {T : Type ℓ} (codec : Codec) (param : Bytes) (p : Paginator) (key : T → Bytes) where
  -- the page of at most `n` items from `start` on, and its cursor
  abbrev pub PageAt : List T → ℕ → Url → List T × NextPage → Type ℓ
  PageAt rest n u (page, next) =
      (page ≡ take n rest)
      × ((length rest ≤ n) × (next ≡ no_next)
          ⊎ ((x : T) × (ys : List T) × (n < length rest)
              × (take n rest ≡ ys ++ x ∷ [])
              × (next ≡ page_for param (some u) (encode_token codec p.scope (key x)))))

  -- a sum that `min` cuts off, and one that it does not
  cut-PageAt :
      (items rest : List T) (st n : ℕ) (u : Url)
      → drop st items ≡ rest
      → st ≤ length items
      → All (λ x. IsKey codec p.scope (key x)) items
      → 1 ≤ n
      → (r : List T × NextPage) × (cut codec param p key (some u) items st (pos (st + n)) ≡ some r)
        × PageAt rest n u r
  cut-PageAt items rest st n u d le k pos_n = split (Bool-cases (ltb (st + n) (length items)))
    where
      len : length rest ≡ length items - st
      len = ap length (sym d) ∙ length-drop st items

      whole :
          length items ≤ st + n
          → cut codec param p key (some u) items st (pos (st + n)) ≡ some (take n rest, no_next)
      whole h =
          let e : min (st + n) (length items) ≡ length items = omega arith in
          let all : take (length items - st) rest ≡ take n rest =
            take_all (length items - st) rest (omega (arith, len))
            ∙ sym (take_all n rest (omega (arith, len))) in
          rw
            (
              e,
              le→not_ltb (length items) st le,
              le→not_ltb (length items) (length items) (omega arith),
            )
            (ap (λ l. some (l, no_next)) (ap (take (length items - st)) d ∙ all))

      is_key : (x : T) (ys : List T) → take n rest ≡ ys ++ x ∷ [] → IsKey codec p.scope (key x)
      is_key x ys e =
          All-at (λ y. IsKey codec p.scope (key y)) (take st items ++ ys) x (drop n rest)
            (subst (All (λ y. IsKey codec p.scope (key y))) (split_at st n items rest ys x d e) k)

      part :
          (x : T) (ys : List T)
          → st + n < length items
          → last? (take n rest) ≡ some x
          → take n rest ≡ ys ++ x ∷ []
          → cut codec param p key (some u) items st (pos (st + n))
            ≡ some (take n rest, page_for param (some u) (encode_token codec p.scope (key x)))
      part x ys h l e =
          let m : min (st + n) (length items) ≡ st + n = omega arith in
          let c : st + n - st ≡ n = omega arith in
          rw (m, le→not_ltb (st + n) st (omega arith), lt→ltb (st + n) (length items) h, c, d, l)
            (rw (next-IsKey codec param p u (key x) (is_key x ys e), minted))

      split :
          (ltb (st + n) (length items) ≡ true) ⊎ (ltb (st + n) (length items) ≡ false)
          → (r : List T × NextPage) × (cut codec param p key (some u) items st (pos (st + n))
              ≡ some r)
            × PageAt rest n u r
      split (inr h) =
          let ge = not_ltb→le (st + n) (length items) h in
          ((take n rest, no_next), whole ge, (refl, inl (omega (arith, len), refl)))
      split (inl h) =
          let more = ltb→lt (st + n) (length items) h in
          let (x, l) = last?-some (take n rest) (omega (arith, length-take n rest, len)) in
          let (ys, e) = last?-split (take n rest) l in
          (
            (take n rest, page_for param (some u) (encode_token codec p.scope (key x))),
            part x ys more l e,
            (refl, inr (x, ys, omega (arith, len), e, refl)),
          )

  -- A page is the next `n` items behind the resume key, whether that key is still in the collection
  -- or not; there is a cursor exactly when items remain, and it names the last item shown.
  pub slice-PageAt :
      (items : List T) (after : Bytes) (n : ℕ) (u : Url)
      → IsSorted key items
      → All (λ x. IsKey codec p.scope (key x)) items
      → 1 ≤ n
      → length items + n < 2 ^ 63
      → (r : List T × NextPage) × (slice codec param p key items
            (record { size = pos n; after = after })
            (some u)
          ≡ some r)
        × PageAt (remaining key items after) n u r
  unfolding slice
  slice-PageAt items after n u s k pos_n fits =
      let le = start_of-le-length key items after s in
      rw (add64_pos (start_of key items after) n (omega arith)) (
        cut-PageAt items (remaining key items after) (start_of key items after) n u
          (drop-start_of key items after s) le k pos_n)

  abbrev append_to : List T → Option (List T) → Option (List T)
  append_to page none = none
  append_to page (some rest) = some (page ++ rest)

  abbrev resume : List T → (Bytes → Option (List T)) → Option Bytes → Option (List T)
  resume page go none = none
  resume page go (some k) = append_to page (go k)

  abbrev follow : (Bytes → Option (List T)) → Option (List T × NextPage) → Option (List T)
  follow go none = none
  follow go (some (page, next)) =
      if is_empty next.token then some page else resume page go (parse_token codec p next.token)

  -- The client: `none` when the fuel runs out, when the adapter panics, or when it refuses a token
  -- of its own.
  pub walk : ℕ → List T → ℕ → Url → Bytes → Option (List T)
  walk zero items n u after = none
  walk (suc fuel) items n u after =
      follow (λ k. walk fuel items n u k)
        (slice codec param p key items (record { size = pos n; after = after }) (some u))

  follow-PageAt :
      (items : List T) (after : Bytes) (n : ℕ) (u : Url) (go : Bytes → Option (List T))
      (r : List T × NextPage)
      → IsSorted key items
      → All (λ x. IsKey codec p.scope (key x)) items
      → PageAt (remaining key items after) n u r
      → ((k : Bytes)
          → length (remaining key items k) + n ≤ length (remaining key items after)
          → go k ≡ some (remaining key items k))
      → follow go (some r) ≡ some (remaining key items after)
  follow-PageAt items after n u go (page, next) s k (e, inl (small, last)) ih =
      rw last (ap some (e ∙ take_all n (remaining key items after) small))
  follow-PageAt items after n u go (page, next) s k (e, inr (x, ys, more, cut_at, nx)) ih =
      rw nx (rw f.carried.not_empty (rw f.carried.not_empty (rw read (rw resumed whole))))
    where
      rest : List T
      rest = remaining key items after

      pre : List T
      pre = take (start_of key items after) items ++ ys

      cuts : items ≡ pre ++ x ∷ drop n rest
      cuts =
          split_at (start_of key items after) n items rest ys x (drop-start_of key items after s)
            cut_at

      f : IsKey codec p.scope (key x)
      f =
          All-at (λ y. IsKey codec p.scope (key y)) pre x (drop n rest)
            (subst (All (λ y. IsKey codec p.scope (key y))) cuts k)

      read : parse_token codec p (encode_token codec p.scope (key x)) ≡ some (key x)
      read = parse_token-fitting codec p (key x) f.carried f.fits f.not_empty f.short

      behind : remaining key items (key x) ≡ drop n rest
      behind = rw f.not_empty (
          subst (λ l. rest_after key (key x) l ≡ drop n rest) (sym cuts)
            (rest_after-split key pre x (drop n rest) (subst (IsSorted key) cuts s)))

      resumed : go (key x) ≡ some (drop n rest)
      resumed = ih (key x) (omega (arith, ap length behind, length-drop n rest)) ∙ ap some behind

      whole : some (page ++ drop n rest) ≡ some rest
      whole = ap some (ap (λ l. l ++ drop n rest) e ∙ take-append-drop n rest)

  walk-remaining :
      (fuel : ℕ) (items : List T) (n : ℕ) (u : Url) (after : Bytes)
      → IsSorted key items
      → All (λ x. IsKey codec p.scope (key x)) items
      → 1 ≤ n
      → length items + n < 2 ^ 63
      → length (remaining key items after) < fuel
      → walk fuel items n u after ≡ some (remaining key items after)
  unfolding walk
  walk-remaining zero items n u after s k pos_n fits f = absurd (omega arith)
  walk-remaining (suc fuel) items n u after s k pos_n fits f =
      let (r, e, page_at) = slice-PageAt items after n u s k pos_n fits in
      rw e (
        follow-PageAt items after n u (λ k. walk fuel items n u k) r s k page_at
          (λ j less. walk-remaining fuel items n u j s k pos_n fits (omega arith)))

  -- Page by page, whatever the size, a client that echoes each token back sees every item of an
  -- unchanged collection exactly once and in order, and its walk ends.
  pub walk_complete :
      (items : List T) (n : ℕ) (u : Url)
      → IsSorted key items
      → All (λ x. IsKey codec p.scope (key x)) items
      → 1 ≤ n
      → length items + n < 2 ^ 63
      → walk (suc (length items)) items n u [] ≡ some items
  walk_complete items n u s k pos_n fits =
      walk-remaining (suc (length items)) items n u [] s k pos_n fits (omega arith)
