-- ===== src/Config/Typed.antt =====
-- What internal/core/config/loader.go gives back for the keys of a specification.
use weave_adapters.Prelude.Text.{Text, text_eq, text_eq_refl}
use weave_adapters.Prelude.Int.{ℤ}
use weave_adapters.Prelude.{
  ◌≡◌, ◌⊎◌, ◌∙◌, refl, subst, Bool, true, false, Option, none, some, List, [], ◌∷◌, arith, inl, inr,
  Bool-cases,
}
use weave_adapters.Config.{
  KeyType, string_type, int_type, bool_type, duration_type, Value, string_value, int_value,
  bool_value, duration_value, Key, Spec, Parsers, Source, zero_of, has_type, same_type, value_in,
  key_of, get, coerce_value, coerce, layered, with_value, resolve, index, index_from, load,
  defaults, env_source, is_among, split_of, as_int, as_bool, as_duration,
}

value-injective : {v w : Value} → Path (Option Value) (some v) (some w) → v ≡ w
value-injective h = ground (arith, h)

has_own_type :
    (t : KeyType) (v w : Value) → has_type t v ≡ true → some v ≡ some w → has_type t w ≡ true
has_own_type t v w h e = subst (λ w. has_type t w ≡ true) (value-injective e) h

same_type_refl : (t : KeyType) → same_type t t ≡ true
same_type_refl string_type = refl
same_type_refl int_type = refl
same_type_refl bool_type = refl
same_type_refl duration_type = refl

zero_of-has_type : (t : KeyType) → has_type t (zero_of t) ≡ true
zero_of-has_type string_type = refl
zero_of-has_type int_type = refl
zero_of-has_type bool_type = refl
zero_of-has_type duration_type = refl

abbrev pub IsKey : Key → Spec → Type 0
IsKey k [] = ⊥
IsKey k (j ∷ spec) = (j ≡ k) ⊎ IsKey k spec

index_from-head :
    (names splits : List Text) (j : Key) (spec : Spec)
    → index_from names splits (j ∷ spec) ≡ true
    → (is_among j.name names ≡ false)
      × (index_from (j.name ∷ names) (split_of j.name ∷ splits) spec ≡ true)
unfolding index_from
index_from-head names splits j spec h = ground (arith, h)

is_among-cons :
    (t s : Text) (seen : List Text)
    → is_among t (s ∷ seen) ≡ false
    → (text_eq s t ≡ false) × (is_among t seen ≡ false)
unfolding is_among
is_among-cons t s seen h = ground (arith, h)

-- A key behind names that were seen has another name.
index_from-fresh :
    (names splits : List Text) (spec : Spec) (k : Key)
    → index_from names splits spec ≡ true
    → IsKey k spec
    → is_among k.name names ≡ false
index_from-fresh names splits [] k h i = elim i [ ]
index_from-fresh names splits (j ∷ spec) k h (inl e) =
    subst (λ k. is_among k.name names ≡ false) e (index_from-head names splits j spec h).0
index_from-fresh names splits (j ∷ spec) k h (inr i) =
    let later =
      index_from-fresh (j.name ∷ names) (split_of j.name ∷ splits) spec k
        (index_from-head names splits j spec h).1 i in
    (is_among-cons k.name j.name names later).1

key_of-IsKey :
    (names splits : List Text) (spec : Spec) (k : Key)
    → index_from names splits spec ≡ true
    → IsKey k spec
    → key_of k.name spec ≡ some k
unfolding key_of
key_of-IsKey names splits [] k h i = elim i [ ]
key_of-IsKey names splits (j ∷ spec) k h (inl e) = rw (e, text_eq_refl k.name) refl
key_of-IsKey names splits (j ∷ spec) k h (inr i) =
    let rest = (index_from-head names splits j spec h).1 in
    let fresh = index_from-fresh (j.name ∷ names) (split_of j.name ∷ splits) spec k rest i in
    rw ((is_among-cons k.name j.name names fresh).0)
      (key_of-IsKey (j.name ∷ names) (split_of j.name ∷ splits) spec k rest i)

found_first : (name : Text) (v : Value) (s : Source) → value_in name ((name, v) ∷ s) ≡ some v
unfolding value_in
found_first name v s = rw (text_eq_refl name) refl

found_later :
    (own name : Text) (v : Value) (s : Source)
    → text_eq own name ≡ false
    → value_in name ((own, v) ∷ s) ≡ value_in name s
unfolding value_in
found_later own name v s h = rw h refl

module _ (p : Parsers) where
  as_int-typed : (o : Option ℤ) (w : Value) → as_int p o ≡ some w → has_type int_type w ≡ true
  as_int-typed none w h = ground (arith, h)
  as_int-typed (some x) w h = subst (λ w. has_type int_type w ≡ true) (value-injective h) refl

  as_bool-typed : (o : Option Bool) (w : Value) → as_bool p o ≡ some w → has_type bool_type w ≡ true
  as_bool-typed none w h = ground (arith, h)
  as_bool-typed (some x) w h = subst (λ w. has_type bool_type w ≡ true) (value-injective h) refl

  as_duration-typed :
      (o : Option ℤ) (w : Value) → as_duration p o ≡ some w → has_type duration_type w ≡ true
  as_duration-typed none w h = ground (arith, h)
  as_duration-typed (some x) w h =
      subst (λ w. has_type duration_type w ≡ true) (value-injective h) refl

  coerce_value-has_type :
      (t : KeyType) (v w : Value) → coerce_value p t v ≡ some w → has_type t w ≡ true
  unfolding coerce_value
  coerce_value-has_type string_type (string_value s) w h = ground (arith, h)
  coerce_value-has_type string_type (int_value n) w h = ground (arith, h)
  coerce_value-has_type string_type (bool_value b) w h = ground (arith, h)
  coerce_value-has_type string_type (duration_value d) w h = ground (arith, h)
  coerce_value-has_type int_type (string_value s) w h = as_int-typed (p.parse_int s) w h
  coerce_value-has_type int_type (int_value n) w h = ground (arith, h)
  coerce_value-has_type int_type (bool_value b) w h = ground (arith, h)
  coerce_value-has_type int_type (duration_value d) w h = ground (arith, h)
  coerce_value-has_type bool_type (string_value s) w h = as_bool-typed (p.parse_bool s) w h
  coerce_value-has_type bool_type (int_value n) w h = ground (arith, h)
  coerce_value-has_type bool_type (bool_value b) w h = ground (arith, h)
  coerce_value-has_type bool_type (duration_value d) w h = ground (arith, h)
  coerce_value-has_type duration_type (string_value s) w h =
      as_duration-typed (p.parse_duration s) w h
  coerce_value-has_type duration_type (int_value n) w h = ground (arith, h)
  coerce_value-has_type duration_type (bool_value b) w h = ground (arith, h)
  coerce_value-has_type duration_type (duration_value d) w h = ground (arith, h)

  coerce-has_type :
      (t : KeyType) (o : Option Value) (w : Value) → coerce p t o ≡ some w → has_type t w ≡ true
  unfolding coerce
  coerce-has_type t none w h = has_own_type t (zero_of t) w (zero_of-has_type t) h
  coerce-has_type t (some v) w h = coerce_value-has_type t v w h

  with_value-some :
      (name : Text) (o : Option Value) (rest : Option Source) (values : Source)
      → with_value p name o rest ≡ some values
      → (v : Value) × (s : Source) × (o ≡ some v) × (rest ≡ some s) × ((name, v) ∷ s ≡ values)
  with_value-some name none rest values h = ground (arith, h)
  with_value-some name (some v) none values h = ground (arith, h)
  with_value-some name (some v) (some s) values h = (v, s, refl, refl, ground (arith, h))

  abbrev Found : List Source → Source → Key → Type 0
  Found sources values k =
      (v : Value) × (coerce p k.key_type (layered k.name sources) ≡ some v)
      × (value_in k.name values ≡ some v)

  -- what a key resolves to, by its name in the values
  resolve-value_in :
      (names splits : List Text) (sources : List Source) (spec : Spec) (values : Source) (k : Key)
      → index_from names splits spec ≡ true
      → resolve p sources spec ≡ some values
      → IsKey k spec
      → Found sources values k
  unfolding resolve
  resolve-value_in names splits sources [] values k h r i = elim i [ ]
  resolve-value_in names splits sources (j ∷ spec) values k h r i =
      let (v, s, c, rest, e) =
        with_value-some j.name (coerce p j.key_type (layered j.name sources))
          (resolve p sources spec) values r in
      subst (λ values. Found sources values k) e
        (elim i [
          | inl q ↦ subst (Found sources ((j.name, v) ∷ s)) q (v, c, found_first j.name v s)
          | inr tail ↦
              let later = (index_from-head names splits j spec h).1 in
              let fresh =
                index_from-fresh (j.name ∷ names) (split_of j.name ∷ splits) spec k later tail in
              let (w, d, f) =
                resolve-value_in (j.name ∷ names) (split_of j.name ∷ splits) sources spec s k later
                  rest tail in
              (w, d, found_later j.name k.name v s (is_among-cons k.name j.name names fresh).0 ∙ f)
        ])

  get-typed :
      (spec : Spec) (values : Source) (k : Key) (v : Value)
      → key_of k.name spec ≡ some k
      → value_in k.name values ≡ some v
      → has_type k.key_type v ≡ true
      → get spec values k.name k.key_type ≡ some v
  unfolding get
  get-typed spec values k v a b c = rw (a, same_type_refl k.key_type, b, c) refl

  -- Where `Load` returns no error, each key of the specification reads at its type, without a panic, as a value of
  -- that type: that of the topmost of flags, environment, file and defaults that has the key, or the zero.
  pub load-IsTyped :
      (file : Source) (environ : List (Text × Text)) (flags : Source) (spec : Spec)
      (values : Source) (k : Key)
      → load p file environ flags spec ≡ some values
      → IsKey k spec
      → (v : Value) × (get spec values k.name k.key_type ≡ some v)
        × (has_type k.key_type v ≡ true)
        × (coerce p k.key_type
              (layered k.name (defaults spec ∷ file ∷ env_source spec environ ∷ flags ∷ []))
            ≡ some v)
  unfolding load index
  load-IsTyped file environ flags spec values k h i = elim (Bool-cases (index spec)) [
    | inr f ↦ ground (arith, h, f)
    | inl t ↦
        let sources = defaults spec ∷ file ∷ env_source spec environ ∷ flags ∷ [] in
        let (v, c, f) = resolve-value_in [] [] sources spec values k t (ground (arith, h, t)) i in
        let typed_v = coerce-has_type k.key_type (layered k.name sources) v c in
        (v, get-typed spec values k v (key_of-IsKey [] [] spec k t i) f typed_v, typed_v, c)
  ]
