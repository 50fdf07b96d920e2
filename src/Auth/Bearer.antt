-- ===== src/Auth/Bearer.antt =====
-- internal/core/auth/bearer.go: from the Authorization header to an entry, or to one of four errors.
use weave_adapters.Prelude.Text.{Text, text, is_blank, trim_left}
use weave_adapters.Prelude.{
  ℕ, ◌+◌, Bool, true, false, not, ◌&&◌, ◌||◌, Option, none, some, List, [], ◌∷◌, ◌++◌, ltb, leb,
  ◌==◌, if◌then◌else◌, length, take, contains_func,
}
use weave_adapters.Auth.Store.{
  Entry, Store, Crypto, token_prefix, cut_prefix, is_alphanumeric, every,
}
use weave_adapters.Auth.Verifier.{Verified, known, unknown_token, token_expired, verify}

-- The errors, as the events that they are made from: API-020 to API-023.
pub data Denied : Type 0 where
  api_020 : Denied
  api_021 : Text → Denied
  api_022 : Denied
  api_023 : Entry → Denied

pub data Authenticated : Type 0 where
  accepted : Entry → Authenticated
  denied : Denied → Authenticated

abbrev before_cut : ℕ → Option (Text × Text) → Option (Text × Text)
before_cut c none = none
before_cut c (some (scheme, rest)) = some (c ∷ scheme, rest)

-- `strings.Cut(s, " ")`
unfoldable pub cut_space : Text → Option (Text × Text)
cut_space [] = none
cut_space (c ∷ cs) =
    let rest = before_cut c (cut_space cs) in if c == 32 then some ([], cs) else rest

abbrev pub lower : ℕ → ℕ
lower c = if leb 65 c && leb c 90 then c + 32 else c

-- `strings.EqualFold` with an ASCII text in which no letter has a fold beyond ASCII
unfoldable pub equal_fold : Text → Text → Bool
equal_fold [] [] = true
equal_fold (c ∷ cs) (d ∷ ds) = lower c == lower d && equal_fold cs ds
equal_fold _ _ = false

abbrev pub is_space_char : ℕ → Bool
is_space_char c = c == 32

abbrev pub bearer_scheme : Text
bearer_scheme = text "Bearer"

abbrev pub token_in : Text → Option Text
token_in t = if is_blank t then none else some t

abbrev pub token_behind : Option (Text × Text) → Option Text
token_behind none = none
token_behind (some (scheme, rest)) =
    if not (equal_fold scheme bearer_scheme) then none else token_in (trim_left is_space_char rest)

-- `bearerToken`
unfoldable pub bearer_token : Text → Option Text
bearer_token header = token_behind (cut_space header)

abbrev is_scheme_char : ℕ → Bool
is_scheme_char c = is_alphanumeric c || contains_func (text "!#$%&'*+-.^_`|~") (λ d. c == d)

-- `isSchemeToken`
unfoldable pub is_scheme_token : Text → Bool
is_scheme_token s = not (is_blank s) && every is_scheme_char s

abbrev pub max_logged_scheme_len : ℕ
max_logged_scheme_len = 16

abbrev has_prefix : Option Text → Bool
has_prefix none = false
has_prefix (some rest) = true

abbrev logged : Option (Text × Text) → Text
logged none = text "(none)"
logged (some (scheme, rest)) =
    if has_prefix (cut_prefix token_prefix scheme) || not (is_scheme_token scheme)
    then text "(unrecognized)"
    else if ltb max_logged_scheme_len (length scheme)
    then take max_logged_scheme_len scheme ++ 0x2026 ∷ []
    else scheme

-- `loggedScheme`; a scheme that is cut is ASCII, so its bytes are its characters
unfoldable pub logged_scheme : Text → Text
logged_scheme header = logged (cut_space header)

abbrev pub judged : Verified → Authenticated
judged (known e) = accepted e
judged unknown_token = denied api_022
judged (token_expired e) = denied (api_023 e)

abbrev pub with_token : Crypto → ℕ → Store → Text → Option Text → Authenticated
with_token c now s header none = denied (api_021 (logged_scheme header))
with_token c now s header (some token) = judged (verify c now s token)

-- `authenticate`, on the values of the Authorization header
unfoldable pub authenticate : Crypto → ℕ → Store → List Text → Authenticated
authenticate c now s [] = denied api_020
authenticate c now s (header ∷ []) =
    if is_blank header then denied api_020 else with_token c now s header (bearer_token header)
authenticate c now s (h ∷ g ∷ more) = denied (api_021 (text "(multiple)"))
