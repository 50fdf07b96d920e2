-- ===== src/Pagination/Page.antt =====
-- internal/core/pagination/page.go: a collection's rules, its query parameters, and the envelope.
-- Go's `int` is 64 bits wide. A panic is `none`.
use weave_adapters.Prelude.Int.{ℤ, pos, negsuc, ltb_ℤ, is_positive}
use weave_adapters.Prelude.{
  ℕ, ◌+◌, ◌-◌, ◌*◌, ◌/◌, ◌^◌, Bool, true, false, not, ◌&&◌, List, [], ◌∷◌, ◌++◌, Option, none, some,
  ltb, leb, ◌==◌, if◌then◌else◌, length, String, str_eq,
}
use weave_adapters.Pagination.Keys.{Bytes}
use weave_adapters.Pagination.Token.{Codec, is_empty, max_key_bytes, encode_token, decode_token}

pub record Paginator : Type 0 where
  pub scope : Bytes
  pub default_size : ℤ
  pub max_size : ℤ

unfoldable pub new : Bytes → ℤ → ℤ → Option Paginator
new scope default_size max_size =
    if is_empty scope
    then none
    else if not (is_positive default_size)
    then none
    else if not (is_positive max_size)
    then none
    else if ltb_ℤ max_size default_size
    then none
    else some (record { scope = scope; default_size = default_size; max_size = max_size })

pub record Params : Type 0 where
  pub size : ℤ
  pub after : Bytes

pub record FieldError : Type 0 where
  pub field : String
  pub message : String

abbrev pub param_page_size : String
param_page_size = "pageSize"

abbrev pub param_page_token : String
param_page_token = "pageToken"

abbrev pub invalid_cursor_message : String
invalid_cursor_message =
    "must be a nextPageToken returned by this endpoint; omit it to start from the first page"

abbrev pub at_least_one_message : String
at_least_one_message = "must be at least 1"

abbrev pub must_be_integer_message : String
must_be_integer_message = "must be an integer"

-- What `strconv.Atoi` finds: a number, `ErrRange` or `ErrSyntax`.
pub data Number : Type 0 where
  value : ℤ → Number
  range : Number
  syntax : Number

abbrev pub is_digit : ℕ → Bool
is_digit c = leb b'0' c && leb c b'9'

-- `ParseUint` in base 10, from the digits read so far
unfoldable pub digits : Bytes → ℕ → Number
digits [] n = value (pos n)
digits (c ∷ cs) n =
    let rest = digits cs (n * 10 + (c - b'0')) in
    if not (is_digit c)
    then syntax
    else if ltb ((2 ^ 64 - 1) / 10) n
    then range
    else if leb (2 ^ 64) (n * 10 + (c - b'0'))
    then range
    else rest

-- the magnitude with its sign, if that fits 64 bits
abbrev pub signed : Bool → Number → Number
signed negative syntax = syntax
signed negative range = range
signed negative (value (negsuc n)) = syntax
signed negative (value (pos n)) =
    if negative
    then (if ltb (2 ^ 63) n then range else value (if n == 0 then pos 0 else negsuc (n - 1)))
    else if leb (2 ^ 63) n
    then range
    else value (pos n)

abbrev pub unsigned : Bool → Bytes → Number
unsigned negative [] = syntax
unsigned negative (c ∷ cs) = signed negative (digits (c ∷ cs) 0)

unfoldable pub atoi : Bytes → Number
unfolding digits
atoi [] = syntax
atoi (c ∷ cs) =
    if c == b'-'
    then unsigned true cs
    else if c == b'+'
    then unsigned false cs
    else unsigned false (c ∷ cs)

-- `strings.HasPrefix(raw, "-")`
abbrev pub has_minus : Bytes → Bool
has_minus [] = false
has_minus (c ∷ cs) = c == b'-'

abbrev pub min_ℤ : ℤ → ℤ → ℤ
min_ℤ a b = if ltb_ℤ b a then b else a

-- `parseSize` behind `Atoi`
abbrev pub size_of : Paginator → Bytes → Number → ℤ × String
size_of p raw range = if has_minus raw then (pos 0, at_least_one_message) else (p.max_size, "")
size_of p raw syntax = (pos 0, must_be_integer_message)
size_of p raw (value size) =
    if not (is_positive size) then (pos 0, at_least_one_message) else (min_ℤ size p.max_size, "")

unfoldable pub parse_size : Paginator → Bytes → ℤ × String
unfolding atoi
parse_size p raw = if is_empty raw then (p.default_size, "") else size_of p raw (atoi raw)

abbrev pub size_errors : ℤ × String → List FieldError
size_errors (size, message) =
    if not (str_eq message "")
    then record { field = param_page_size; message = message } ∷ []
    else []

abbrev pub token_errors : Option Bytes → List FieldError
token_errors (some after) = []
token_errors none = record { field = param_page_token; message = invalid_cursor_message } ∷ []

-- the parameters, or the field errors of a 400
pub data Parsed : Type 0 where
  params : Params → Parsed
  invalid : List FieldError → Parsed

abbrev pub parsed : List FieldError → ℤ → Option Bytes → Parsed
parsed [] size (some after) = params (record { size = size; after = after })
parsed [] size none = params (record { size = size; after = [] })
parsed (e ∷ errors) size after = invalid (e ∷ errors)

module _ (codec : Codec) where
  -- `none` is `ok == false`
  unfoldable pub parse_token : Paginator → Bytes → Option Bytes
  parse_token p raw = if is_empty raw then some [] else decode_token codec raw p.scope

  -- `Parse`, on the first values of the two query parameters
  unfoldable pub parse : Paginator → Bytes → Bytes → Parsed
  unfolding parse_size parse_token
  parse p page_size page_token =
      let size = parse_size p page_size in
      let after = parse_token p page_token in
      parsed (size_errors size ++ token_errors after) size.0 after

  -- `none` is the panic on a key that no token can carry
  unfoldable pub next_token : Paginator → Bytes → Option Bytes
  next_token p key =
      if is_empty key
      then some []
      else if ltb max_key_bytes (length key)
      then none
      else some (encode_token codec p.scope key)
