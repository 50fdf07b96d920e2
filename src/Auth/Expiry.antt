-- ===== src/Auth/Expiry.antt =====
-- internal/core/auth/store.go and mint.go: the type `Expiry`, and a store as the TOML library is given
-- it. An instant is its nanoseconds; the calendar and the texts of RFC 3339 are those of Go's `time`,
-- and TOML's own text is the library's, which also writes the instant of minting.
pub mod Seconds
use weave_adapters.Prelude.Int.{ℤ, pos, negsuc}
use weave_adapters.Prelude.Text.{Text}
use weave_adapters.Prelude.{
  ℕ, Bool, true, false, not, Option, none, some, List, [], ◌∷◌, ltb, if◌then◌else◌,
}
use weave_adapters.Auth.Store.{Entry, Store}

-- Go's `time`, in UTC: `Year`, `Format(RFC3339)`, `Parse(RFC3339)` and `AddDate(0, 0, days)`.
pub record Times : Type 0 where
  pub year : ℕ → ℤ
  pub format : ℕ → Text
  pub parse : Text → Option ℕ
  pub add_days : ℕ → ℕ → ℕ

-- an entry as it is encoded, its expiry as text
pub record Row : Type 0 where
  pub label : Text
  pub hash : Text
  pub created_at : ℕ
  pub expires_at : Option Text

-- go-toml's two ways
pub record Toml : Type 0 where
  pub encode : List Row → Option Text
  pub decode : Text → Option (List Row)

abbrev pub is_beyond : ℤ → Bool
is_beyond (pos y) = ltb 9999 y
is_beyond (negsuc y) = true

module _ (times : Times) where
  -- `MarshalText`
  unfoldable pub marshal_text : ℕ → Option Text
  marshal_text t = if is_beyond (times.year t) then none else some (times.format t)

  -- `UnmarshalText`
  abbrev pub unmarshal_text : Text → Option ℕ
  unmarshal_text text = times.parse text

  abbrev bounded : ℕ → Option Text → Option ℕ
  bounded t none = none
  bounded t (some text) = some t

  -- `ExpiryInDays`
  unfoldable pub expiry_in_days : ℕ → ℕ → Option ℕ
  expiry_in_days from days =
      if ltb days 1
      then none
      else bounded (times.add_days from days) (marshal_text (times.add_days from days))

  abbrev pub with_text : Entry → Option Text → Row
  with_text e x = record {
    label = e.label;
    hash = e.hash;
    created_at = e.created_at;
    expires_at = x;
  }

  abbrev row_with : Entry → Option Text → Option Row
  row_with e none = none
  row_with e (some text) = some (with_text e (some text))

  abbrev pub row_at : Entry → Option ℕ → Option Row
  row_at e none = some (with_text e none)
  row_at e (some t) = row_with e (marshal_text t)

  abbrev pub cons {ℓ} : {A : Type ℓ} → Option A → Option (List A) → Option (List A)
  cons (some a) (some l) = some (a ∷ l)
  cons _ _ = none

  -- the entries as `toml.Marshal` encodes them; `none` is an error of `MarshalText`
  unfoldable pub rows : Store → Option (List Row)
  rows [] = some []
  rows (e ∷ s) = cons (row_at e e.expires_at) (rows s)

  abbrev pub entry_with : Row → Option ℕ → Entry
  entry_with r x = record {
    label = r.label;
    hash = r.hash;
    created_at = r.created_at;
    expires_at = x;
  }

  abbrev entry_at : Row → Option ℕ → Option Entry
  entry_at r none = none
  entry_at r (some t) = some (entry_with r (some t))

  abbrev pub entry_of : Row → Option Text → Option Entry
  entry_of r none = some (entry_with r none)
  entry_of r (some text) = entry_at r (unmarshal_text text)

  -- the entries as `toml.Unmarshal` reads them
  unfoldable pub entries : List Row → Option Store
  entries [] = some []
  entries (r ∷ rs) = cons (entry_of r r.expires_at) (entries rs)

  abbrev encoded : Toml → Option (List Row) → Option Text
  encoded toml none = none
  encoded toml (some rs) = toml.encode rs

  abbrev decoded : Option (List Row) → Option Store
  decoded none = none
  decoded (some rs) = entries rs

  -- `toml.Marshal` and `toml.Unmarshal` on a store
  unfoldable pub marshal : Toml → Store → Option Text
  marshal toml s = encoded toml (rows s)

  unfoldable pub unmarshal : Toml → Text → Option Store
  unmarshal toml t = decoded (toml.decode t)
