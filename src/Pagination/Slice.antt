-- ===== src/Pagination/Slice.antt =====
-- internal/core/pagination: `Slice`, and the cursor that `Next` mints with its link.
use weave_adapters.Prelude.Int.{ℤ, pos, negsuc, add64}
use weave_adapters.Prelude.{
  ℕ, ◌-◌, Bool, false, not, ◌&&◌, List, [], ◌∷◌, Option, none, some, ltb, ◌==◌, if◌then◌else◌,
  length, take, drop, min,
}
use weave_adapters.Pagination.Keys.{Bytes}
use weave_adapters.Pagination.Search.{binary_search, step_over}
use weave_adapters.Pagination.Token.{Codec, bytes_eq, is_empty}
use weave_adapters.Pagination.Page.{Paginator, Params, next_token}

-- The parts of a `url.URL` that `Next` reads or writes, with the query as its parsed values.
pub record Url : Type 0 where
  pub scheme : Bytes
  pub host : Bytes
  pub user : Option Bytes
  pub path : Bytes
  pub raw_path : Bytes
  pub fragment : Bytes
  pub raw_fragment : Bytes
  pub query : List (Bytes × Bytes)

pub record NextPage : Type 0 where
  pub token : Bytes
  pub url : Option Url

abbrev pub no_next : NextPage
no_next = record { token = []; url = none }

-- `query.Set`: the values that were there go, and one takes their place
abbrev pub without : Bytes → List (Bytes × Bytes) → List (Bytes × Bytes)
without k [] = []
without k ((j, v) ∷ q) = let rest = without k q in if bytes_eq j k then rest else (j, v) ∷ rest

abbrev pub set_value : Bytes → Bytes → List (Bytes × Bytes) → List (Bytes × Bytes)
set_value k v q = (k, v) ∷ without k q

abbrev pub trim_slashes : Bytes → Bytes
trim_slashes [] = []
trim_slashes (c ∷ cs) = let rest = trim_slashes cs in if c == b'/' then rest else c ∷ cs

abbrev pub has_two_slashes : Bytes → Bool
has_two_slashes (c ∷ d ∷ cs) = c == b'/' && d == b'/'
has_two_slashes _ = false

-- the relative reference of the next page
unfoldable pub next_url : Bytes → Url → Bytes → Url
next_url param u token =
    let local = record u {
      scheme = [];
      host = [];
      user = none;
      fragment = [];
      raw_fragment = [];
      query = set_value param token u.query;
    } in
    if has_two_slashes u.path
    then record local { path = b'/' ∷ trim_slashes u.path; raw_path = [] }
    else local

-- `param` is the name of the query parameter, `ParamPageToken`.
abbrev pub page_for : Bytes → Option Url → Bytes → NextPage
page_for param none token = no_next
page_for param (some u) token =
    if is_empty token
    then no_next
    else record { token = token; url = some (next_url param u token) }

-- the last key of a page; an empty page has none
abbrev pub last? {ℓ} : {A : Type ℓ} → List A → Option A
last? [] = none
last? (x ∷ []) = some x
last? (x ∷ y ∷ xs) = last? (y ∷ xs)

-- the first item of the page
abbrev pub start_of {ℓ} : {T : Type ℓ} → (T → Bytes) → List T → Bytes → ℕ
start_of key items after =
    if not (is_empty after) then step_over (binary_search key items after) else 0

module _ (codec : Codec) (param : Bytes) (p : Paginator) where
  -- `Next`; `none` is a panic
  unfoldable pub next : Option Url → Bytes → Option NextPage
  next url key = elim (next_token codec p key) [
    | none ↦ none
    | some token ↦ some (page_for param url token)
  ]

  module _ {ℓ} {T : Type ℓ} (key : T → Bytes) where
    abbrev pub minted : Option Url → List T → Option T → Option (List T × NextPage)
    minted url page none = none
    minted url page (some x) = elim (next url (key x)) [ none ↦ none | some n ↦ some (page, n) ]

    -- `items[start:end]` and its cursor; a negative end is a panic
    abbrev pub cut : Option Url → List T → ℕ → ℤ → Option (List T × NextPage)
    cut url items start (negsuc n) = none
    cut url items start (pos n) =
        let end = min n (length items) in
        let page = take (end - start) (drop start items) in
        if ltb end start
        then none
        else if ltb end (length items)
        then minted url page (last? page)
        else some (page, no_next)

    unfoldable pub slice : List T → Params → Option Url → Option (List T × NextPage)
    slice items params url =
        let start = start_of key items params.after in
        cut url items start (add64 (pos start) params.size)
