-- ===== src/Config/Located.antt =====
-- What internal/core/config/servicepath.go lets a service start with.
use weave_adapters.Prelude.Text.{Text, is_blank}
use weave_adapters.Prelude.{
  ℕ, ◌≡◌, ◌⊎◌, ◌↔◌, ◌∙◌, refl, sym, ap, subst, true, false, Option, some, List, [], ◌∷◌, ◌++◌,
  arith, inl, inr, Bool-cases, All,
}
use weave_adapters.Config.{
  KeyType, string_type, Value, string_value, int_value, bool_value, duration_value, Key, Spec,
  Parsers, Source, get, has_type, load,
}
use weave_adapters.Config.Typed.{IsKey, load-IsTyped}
use weave_adapters.Config.ServicePath.{
  normalized, is_drive_letter, is_absolute_windows_path, is_bare_command_name, is_command,
  is_a_path, check_path, PathErr, path_errors, is_string, check_keys, check_service_paths,
}

abbrev IsSeparator : ℕ → Type 0
IsSeparator c = (c ≡ 47) ⊎ (c ≡ 92)

-- Two separators lead, whatever is behind them, or a letter, a colon and a separator.
abbrev pub IsAbsolute : Text → Type 0
IsAbsolute (a ∷ b ∷ []) = IsSeparator a × IsSeparator b
IsAbsolute (a ∷ b ∷ c ∷ rest) =
    (IsSeparator a × IsSeparator b) ⊎ ((is_drive_letter a ≡ true) × (b ≡ 58) × IsSeparator c)
IsAbsolute _ = ⊥

is_absolute_windows_path-IsAbsolute_iff :
    (t : Text) → (is_absolute_windows_path t ≡ true) ↔ IsAbsolute t
unfolding is_absolute_windows_path normalized
is_absolute_windows_path-IsAbsolute_iff [] = ground arith
is_absolute_windows_path-IsAbsolute_iff (a ∷ []) = ground arith
is_absolute_windows_path-IsAbsolute_iff (a ∷ b ∷ []) = ground arith
is_absolute_windows_path-IsAbsolute_iff (a ∷ b ∷ c ∷ rest) = ground arith

-- The value that a key reads as is set where a service needs it; and if the key is of a path, it is empty or
-- absolute, or the bare name of a command.
abbrev pub IsLocated : Key → Text → Type 0
IsLocated k s =
    ((k.service_required ≡ false) ⊎ (is_blank s ≡ false))
    × ((is_a_path k.path ≡ false)
        ⊎ ((is_blank s ≡ true)
            ⊎ (IsAbsolute s ⊎ ((is_command k.path ≡ true) × (is_bare_command_name s ≡ true)))))

path_errors-IsLocated_iff : (k : Key) (s : Text) → (path_errors k s ≡ []) ↔ IsLocated k s
unfolding check_path
path_errors-IsLocated_iff k s = ground (arith, is_absolute_windows_path-IsAbsolute_iff s)

append-none : (a b : List PathErr) → (a ++ b ≡ []) ↔ ((a ≡ []) × (b ≡ []))
append-none [] b = ground arith
append-none (e ∷ a) b = ground arith

not_string : (k : Key) → is_string k.key_type ≡ true → is_string k.key_type ≡ false → ⊥
not_string k t f = ground (arith, t, f)

string-injective :
    {s t : Text} → Path (Option Value) (some (string_value s)) (some (string_value t)) → s ≡ t
string-injective h = ground (arith, h)

module _ (spec : Spec) (values : Source) where
  -- The key is of no text, or it reads as a text that is as `IsLocated` says.
  abbrev pub IsWell : Key → Type 0
  IsWell k =
      (is_string k.key_type ≡ false)
      ⊎ ((s : Text) × (get spec values k.name string_type ≡ some (string_value s)) × IsLocated k s)

  abbrev HasText : Key → Type 0
  HasText k =
      is_string k.key_type ≡ true
      → (s : Text) × (get spec values k.name string_type ≡ some (string_value s))

  abbrev Answers : List Key → Type 0
  Answers ks =
      (errs : List PathErr) × (check_keys spec values ks ≡ some errs)
      × ((errs ≡ []) ↔ All IsWell ks)

  well_text :
      (k : Key)
      → IsWell k
      → is_string k.key_type ≡ true
      → (s : Text) × (get spec values k.name string_type ≡ some (string_value s)) × IsLocated k s
  well_text k (inl f) t = absurd (not_string k t f)
  well_text k (inr w) t = w

  check_keys-cons : (k : Key) (ks : List Key) → HasText k → Answers ks → Answers (k ∷ ks)
  unfolding check_keys
  check_keys-cons k ks h (errs, e, w) = elim (Bool-cases (is_string k.key_type)) [
    | inr f ↦ (errs, rw f e, (λ x. (inl f, w.0 x), λ a. w.1 a.1))
    | inl t ↦
        let (s, g) = h t in
        (
          path_errors k s ++ errs,
          rw (t, g, e) refl,
          (
            λ x.
                let (p, q) = (append-none (path_errors k s) errs).0 x in
                (inr (s, g, (path_errors-IsLocated_iff k s).0 p), w.0 q),
            λ (a, b).
                let (u, v, l) = well_text k a t in
                let same = string-injective (sym v ∙ g) in
                (append-none (path_errors k s) errs).1
                  ((path_errors-IsLocated_iff k s).1 (subst (IsLocated k) same l), w.1 b),
          ),
        )
  ]

  check_keys-Answers : (ks : List Key) → ((k : Key) → IsKey k ks → HasText k) → Answers ks
  unfolding check_keys
  check_keys-Answers [] h = ([], refl, (λ x. tt, λ x. refl))
  check_keys-Answers (k ∷ ks) h =
      check_keys-cons k ks (h k (inl refl)) (check_keys-Answers ks (λ j i. h j (inr i)))

text_of : (v : Value) → has_type string_type v ≡ true → (s : Text) × (v ≡ string_value s)
text_of (string_value s) h = (s, refl)
text_of (int_value n) h = ground (arith, h)
text_of (bool_value b) h = ground (arith, h)
text_of (duration_value d) h = ground (arith, h)

type_of : (t : KeyType) → is_string t ≡ true → t ≡ string_type
type_of t h = ground (arith, h)

-- After a `Load` without an error `CheckServicePaths` does not panic, and it finds no error exactly if each text key
-- of the specification reads as `IsLocated` says: set where a service needs it, and for a path empty, led by two
-- separators or by a drive and a separator, or for a command free of separators, `C:tool.exe` included.
pub check_service_paths-IsWell :
    (p : Parsers) (file : Source) (environ : List (Text × Text)) (flags : Source) (spec : Spec)
    (values : Source)
    → load p file environ flags spec ≡ some values
    → (errs : List PathErr) × (check_service_paths spec values ≡ some errs)
      × ((errs ≡ []) ↔ All (IsWell spec values) spec)
unfolding check_service_paths
check_service_paths-IsWell p file environ flags spec values h =
    check_keys-Answers spec values spec (λ k i t. reads k i t)
  where
    reads :
        (k : Key)
        → IsKey k spec
        → is_string k.key_type ≡ true
        → (s : Text) × (get spec values k.name string_type ≡ some (string_value s))
    reads k i t =
        let (v, g, y, c) = load-IsTyped p file environ flags spec values k h i in
        let is_text = type_of k.key_type t in
        let (s, q) = text_of v (subst (λ t. has_type t v ≡ true) is_text y) in
        (s, subst (λ t. get spec values k.name t ≡ some v) is_text g ∙ ap some q)
