-- ===== src/Config.antt =====
-- internal/core/config/key.go and loader.go: the keys of a configuration, the names that they derive, and the
-- values that the sources give them. Names are ASCII. A duration is a number of nanoseconds; the sources
-- that koanf, TOML and the flag package read are lists of names and values.
pub mod Names
pub mod Typed
pub mod ServicePath
pub mod Located
mod Tests
use weave_adapters.Prelude.Text.{Text, text, text_eq}
use weave_adapters.Prelude.Int.{ℤ, pos}
use weave_adapters.Prelude.{
  ℕ, ◌+◌, ◌-◌, Bool, true, false, not, ◌&&◌, ◌||◌, Option, none, some, List, [], ◌∷◌, ◌++◌, leb,
  ◌==◌, if◌then◌else◌,
}

-- `Type`
pub data KeyType : Type 0 where
  string_type int_type bool_type duration_type : KeyType

-- A value of any source, or a typed one; numbers have a sign.
pub data Value : Type 0 where
  string_value : Text → Value
  int_value : ℤ → Value
  bool_value : Bool → Value
  duration_value : ℤ → Value

pub data PathKind : Type 0 where
  not_a_path file_path command_path : PathKind

pub record Key : Type 0 where
  pub name : Text
  pub key_type : KeyType
  pub default : Option Value
  pub service_required : Bool
  pub path : PathKind
  pub no_flag : Bool

abbrev pub Spec : Type 0
Spec = List Key

abbrev pub is_upper : ℕ → Bool
is_upper c = leb 65 c && leb c 90

abbrev pub lower : ℕ → ℕ
lower c = if is_upper c then c + 32 else c

abbrev pub upper : ℕ → ℕ
upper c = if leb 97 c && leb c 122 then c - 32 else c

-- a character in front of the first word
abbrev pub prepend : ℕ → List Text → List Text
prepend c [] = (c ∷ []) ∷ []
prepend c (w ∷ ws) = (c ∷ w) ∷ ws

-- the words from here on; `first` is whether a segment begins here
unfoldable pub words_from : Bool → Text → List Text
words_from first [] = [] ∷ []
words_from first (c ∷ cs) =
    let fresh = words_from true cs in
    let rest = prepend (lower c) (words_from false cs) in
    if c == 46 then [] ∷ fresh else if is_upper c && not first then [] ∷ rest else rest

-- `words`
unfoldable pub words : Text → List Text
words key = words_from true key

-- `strings.Join`, with one character between the words
unfoldable pub join : ℕ → List Text → Text
join sep [] = []
join sep (w ∷ []) = w
join sep (w ∷ v ∷ ws) = w ++ sep ∷ join sep (v ∷ ws)

-- `FlagName`
unfoldable pub flag_name : Text → Text
flag_name key = join 45 (words key)

unfoldable pub to_upper : Text → Text
to_upper [] = []
to_upper (c ∷ cs) = upper c ∷ to_upper cs

abbrev pub env_prefix : Text
env_prefix = text "WEAVE_ADAPTER_"

-- `EnvName`
unfoldable pub env_name : Text → Text
env_name key = env_prefix ++ to_upper (join 95 (words key))

abbrev pub reserved_flag : Text
reserved_flag = text "config"

abbrev pub split_of : Text → Text
split_of key = join 0 (words key)

unfoldable pub is_among : Text → List Text → Bool
is_among t [] = false
is_among t (s ∷ seen) = text_eq s t || is_among t seen

-- `index`, with the names and the splits that it has seen: whether it returns without an error
unfoldable pub index_from : List Text → List Text → Spec → Bool
index_from names splits [] = true
index_from names splits (k ∷ ks) =
    let rest = index_from (k.name ∷ names) (split_of k.name ∷ splits) ks in
    if is_among k.name names
    then false
    else if text_eq (flag_name k.name) reserved_flag
    then false
    else if is_among (split_of k.name) splits
    then false
    else rest

unfoldable pub index : Spec → Bool
index spec = index_from [] [] spec

-- `zeroOf`
abbrev pub zero_of : KeyType → Value
zero_of string_type = string_value []
zero_of int_type = int_value (pos 0)
zero_of bool_type = bool_value false
zero_of duration_type = duration_value (pos 0)

-- `strconv.Atoi`, `ParseBool` and `ParseDuration`
pub record Parsers : Type 0 where
  pub parse_int : Text → Option ℤ
  pub parse_bool : Text → Option Bool
  pub parse_duration : Text → Option ℤ

abbrev pub Source : Type 0
Source = List (Text × Value)

unfoldable pub value_in : Text → Source → Option Value
value_in name [] = none
value_in name (e ∷ s) = if text_eq e.0 name then some e.1 else value_in name s

abbrev or_else : Option Value → Option Value → Option Value
or_else none b = b
or_else (some a) b = some a

-- `k.Get` behind the loads: of the sources the last one that has the name
unfoldable pub layered : Text → List Source → Option Value
layered name [] = none
layered name (s ∷ above) = or_else (layered name above) (value_in name s)

-- `defaults`
unfoldable pub defaults : Spec → Source
defaults [] = []
defaults (k ∷ ks) =
    let rest = defaults ks in elim k.default [ none ↦ rest | some v ↦ (k.name, v) ∷ rest ]

abbrev or_this : Option Text → Option Text → Option Text
or_this none b = b
or_this (some a) b = some a

-- `envTransform`: the key of a variable
unfoldable pub env_transform : Spec → Text → Option Text
env_transform [] variable = none
env_transform (k ∷ ks) variable =
    or_this (env_transform ks variable)
      (if text_eq (env_name k.name) variable then some k.name else none)

abbrev with_variable : Option Text → Text → Source → Source
with_variable none value rest = rest
with_variable (some key) value rest = (key, string_value value) ∷ rest

-- the variables of the environment, each of which stands once, as values of keys
unfoldable pub env_source : Spec → List (Text × Text) → Source
env_source spec [] = []
env_source spec (e ∷ es) = with_variable (env_transform spec e.0) e.1 (env_source spec es)

-- whether a value is of Go's type for the key
abbrev pub has_type : KeyType → Value → Bool
has_type string_type (string_value s) = true
has_type int_type (int_value n) = true
has_type bool_type (bool_value b) = true
has_type duration_type (duration_value d) = true
has_type _ _ = false

unfoldable pub key_of : Text → Spec → Option Key
key_of name [] = none
key_of name (k ∷ ks) = if text_eq k.name name then some k else key_of name ks

abbrev pub same_type : KeyType → KeyType → Bool
same_type string_type string_type = true
same_type int_type int_type = true
same_type bool_type bool_type = true
same_type duration_type duration_type = true
same_type _ _ = false

abbrev pub typed : KeyType → Option Value → Option Value
typed want none = none
typed want (some v) = if has_type want v then some v else none

abbrev pub read_key : Text → KeyType → Source → Option Key → Option Value
read_key name want values none = none
read_key name want values (some k) =
    if same_type k.key_type want then typed want (value_in name values) else none

-- `get` of `Values`: `none` is a panic
unfoldable pub get : Spec → Source → Text → KeyType → Option Value
get spec values name want = read_key name want values (key_of name spec)

module _ (p : Parsers) where
  abbrev pub as_int : Option ℤ → Option Value
  as_int none = none
  as_int (some n) = some (int_value n)

  abbrev pub as_bool : Option Bool → Option Value
  as_bool none = none
  as_bool (some b) = some (bool_value b)

  abbrev pub as_duration : Option ℤ → Option Value
  as_duration none = none
  as_duration (some d) = some (duration_value d)

  -- `coerce` on a value, with its four kinds
  unfoldable pub coerce_value : KeyType → Value → Option Value
  coerce_value string_type (string_value s) = some (string_value s)
  coerce_value int_type (int_value n) = some (int_value n)
  coerce_value int_type (string_value s) = as_int (p.parse_int s)
  coerce_value bool_type (bool_value b) = some (bool_value b)
  coerce_value bool_type (string_value s) = as_bool (p.parse_bool s)
  coerce_value duration_type (duration_value d) = some (duration_value d)
  coerce_value duration_type (string_value s) = as_duration (p.parse_duration s)
  coerce_value _ _ = none

  -- `coerce`
  unfoldable pub coerce : KeyType → Option Value → Option Value
  coerce t none = some (zero_of t)
  coerce t (some v) = coerce_value t v

  abbrev pub with_value : Text → Option Value → Option Source → Option Source
  with_value name none rest = none
  with_value name (some v) none = none
  with_value name (some v) (some rest) = some ((name, v) ∷ rest)

  -- `resolve`; `none` is an error
  unfoldable pub resolve : List Source → Spec → Option Source
  resolve sources [] = some []
  resolve sources (k ∷ ks) =
      with_value k.name (coerce k.key_type (layered k.name sources)) (resolve sources ks)

  -- `load` on what the file, the environment and the flags have; no key's name is a dotted prefix of another's
  unfoldable pub load : Source → List (Text × Text) → Source → Spec → Option Source
  load file environ flags spec =
      if not (index spec)
      then none
      else resolve (defaults spec ∷ file ∷ env_source spec environ ∷ flags ∷ []) spec
