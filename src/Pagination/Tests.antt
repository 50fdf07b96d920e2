-- ===== src/Pagination/Tests.antt =====
-- Pages of a small collection.
use weave_adapters.Prelude.Int.{pos}
use weave_adapters.Prelude.{
  ℕ, zero, suc, ◌+◌, ◌-◌, ◌*◌, ◌/◌, ◌≤◌, ◌≡◌, refl, ap, List, [], ◌∷◌, ◌++◌, Option, none, some,
  arith, length, take, drop, codes, String, All,
}
use weave_adapters.Pagination.Keys.{Bytes, compare_bytes, IsSorted}
use weave_adapters.Pagination.Search.{binary_search}
use weave_adapters.Pagination.Token.{
  Codec, Cursor, Faithful, HasSizes, encoded_len, max_token_len, encode_token-fits, encode_token,
  decode_token, max_key_bytes, decode_token-encode_token, decode_token_foreign,
}
use weave_adapters.Pagination.Page.{
  Paginator, new, parse_size, parse_token, next_token, parse, param_page_token,
}
use weave_adapters.Pagination.Parse.{
  Sized, new-Sized, parse_size-horner, parse_size-bounds, parse-bounds, parse_token-next_token,
}
use weave_adapters.Pagination.Link.{IsLocal, next_url-IsLocal}
use weave_adapters.Pagination.Slice.{Url, NextPage, slice, next_url}
use weave_adapters.Pagination.Walk.{IsKey, PageAt, slice-PageAt, walk, walk_complete}

-- A codec that works: the version, the lengths of the scope and of the key, these two, and padding up
-- to the length that JSON has. Padding up to the length of base64 comes behind that.
abbrev zeros : ℕ → Bytes
zeros zero = []
zeros (suc n) = 0 ∷ zeros n

abbrev write : Cursor → Bytes
write c =
    c.version ∷ length c.scope ∷ length c.after ∷ c.scope
    ++ (c.after ++ zeros (18 + (length c.after + 2) / 3 * 4 - length c.after))

abbrev read : Bytes → Option Cursor
read (v ∷ n ∷ m ∷ rest) =
    some (record { version = v; scope = take n rest; after = take m (drop n rest) })
read _ = none

abbrev pad : Bytes → Bytes
pad b = length b ∷ b ++ zeros (encoded_len (length b) - (1 + length b))

abbrev unpad : Bytes → Option Bytes
unpad [] = none
unpad (n ∷ rest) = some (take n rest)

abbrev plain : Codec
plain = record { encode_base64 = pad; decode_base64 = unpad; marshal = write; unmarshal = read }

abbrev scopes : Paginator
scopes = record { scope = codes "scopes"; default_size = pos 2; max_size = pos 5 }

new-scopes : new (codes "scopes") (pos 2) (pos 5) ≡ some scopes
unfolding new
new-scopes = refl

abbrev scopes-Sized : Sized scopes
scopes-Sized = record {
  default = 2;
  max = 5;
  default_is = refl;
  max_is = refl;
  default_positive = omega arith;
  default_le_max = omega arith;
}

new-Sized_example : Sized scopes
new-Sized_example = new-Sized (codes "scopes") (pos 2) (pos 5) new-scopes

-- 10^20 is beyond 64 bits, and clamps like 5000.
huge : parse_size scopes (codes "100000000000000000000") ≡ (pos 5, "")
unfolding parse_size
huge = refl

parse_size-horner_example : parse_size scopes (codes "5000") ≡ (pos 5, "")
parse_size-horner_example =
    parse_size-horner scopes scopes-Sized b'5' (codes "000") (omega arith)
      (refl, (refl, (refl, (refl, tt))))

parse_size-bounds_example : (n : ℕ) × (pos 3 ≡ pos n) × (1 ≤ n) × (n ≤ 5)
unfolding parse_size
parse_size-bounds_example = parse_size-bounds scopes scopes-Sized (codes "3") refl

abbrev items : List String
items = "a" ∷ "b" ∷ "bb" ∷ []

abbrev url : Url
url = record {
  scheme = codes "http";
  host = codes "evil.example";
  user = none;
  path = codes "//evil.example/x";
  raw_path = [];
  fragment = [];
  raw_fragment = [];
  query = (codes "scopeId", codes "10.0.0.0") ∷ (codes "pageToken", codes "old") ∷ [];
}

sizes-b : HasSizes plain (codes "scopes") (codes "b")
unfolding encode_token
sizes-b = record { json_size = refl; base64_size = refl }

fits-b : length (encode_token plain (codes "scopes") (codes "b")) ≤ max_token_len (codes "scopes")
fits-b = encode_token-fits plain (codes "scopes") (codes "b") sizes-b (omega arith)

Faithful-b : Faithful plain (codes "scopes") (codes "b")
unfolding encode_token
Faithful-b = record { base64_reads = refl; json_reads = refl; not_empty = refl }

sizes-a : HasSizes plain (codes "scopes") (codes "a")
unfolding encode_token
sizes-a = record { json_size = refl; base64_size = refl }

fits-a : length (encode_token plain (codes "scopes") (codes "a")) ≤ max_token_len (codes "scopes")
fits-a = encode_token-fits plain (codes "scopes") (codes "a") sizes-a (omega arith)

Faithful-a : Faithful plain (codes "scopes") (codes "a")
unfolding encode_token
Faithful-a = record { base64_reads = refl; json_reads = refl; not_empty = refl }

sizes-bb : HasSizes plain (codes "scopes") (codes "bb")
unfolding encode_token
sizes-bb = record { json_size = refl; base64_size = refl }

fits-bb : length (encode_token plain (codes "scopes") (codes "bb")) ≤ max_token_len (codes "scopes")
fits-bb = encode_token-fits plain (codes "scopes") (codes "bb") sizes-bb (omega arith)

Faithful-bb : Faithful plain (codes "scopes") (codes "bb")
unfolding encode_token
Faithful-bb = record { base64_reads = refl; json_reads = refl; not_empty = refl }

decode_token-encode_token_example :
    decode_token plain (encode_token plain (codes "scopes") (codes "b")) (codes "scopes")
    ≡ some (codes "b")
decode_token-encode_token_example =
    decode_token-encode_token plain (codes "scopes") (codes "b") Faithful-b sizes-b refl
      (omega arith)

decode_token_foreign_example :
    decode_token plain (encode_token plain (codes "scopes") (codes "b")) (codes "jobs") ≡ none
decode_token_foreign_example =
    decode_token_foreign plain (codes "scopes") (codes "jobs") (codes "b") Faithful-b
      (λ e. omega (arith, ap length e))

parse_token-next_token_example :
    (token : Bytes) × (next_token plain scopes (codes "b") ≡ some token)
    × (parse_token plain scopes token ≡ some (codes "b"))
parse_token-next_token_example =
    parse_token-next_token plain scopes (codes "b") Faithful-b sizes-b (omega arith)

parse-bounds_example : ((n : ℕ) × (pos 5 ≡ pos n) × (1 ≤ n) × (n ≤ 5)) × (0 ≤ max_key_bytes)
unfolding parse
parse-bounds_example =
    parse-bounds plain scopes scopes-Sized (codes "77") [] {r = record { size = pos 5; after = [] }}
      refl

items-IsSorted : IsSorted codes items
unfolding compare_bytes
items-IsSorted = ((refl, (refl, tt)), ((refl, tt), (tt, tt)))

items-IsKey : All (λ x. IsKey plain scopes.scope (codes x)) items
unfolding encode_token
items-IsKey = (
  record { not_empty = refl; short = omega arith; carried = Faithful-a; fits = fits-a },
  (
    record { not_empty = refl; short = omega arith; carried = Faithful-b; fits = fits-b },
    (record { not_empty = refl; short = omega arith; carried = Faithful-bb; fits = fits-bb }, tt),
  ),
)

slice_last_two :
    slice plain
      (codes param_page_token)
      scopes
      codes
      items
      (record { size = pos 2; after = codes "aa" })
      (some url)
    ≡ some ("b" ∷ "bb" ∷ [], record { token = []; url = none })
unfolding slice binary_search compare_bytes
slice_last_two = refl

slice-PageAt_example :
    (r : List String × NextPage) × (slice plain
        (codes param_page_token)
        scopes
        codes
        items
        (record { size = pos 1; after = codes "aa" })
        (some url)
      ≡ some r)
    × PageAt plain (codes param_page_token) scopes codes ("b" ∷ "bb" ∷ []) 1 url r
unfolding compare_bytes
slice-PageAt_example =
    slice-PageAt plain (codes param_page_token) scopes codes items (codes "aa") 1 url items-IsSorted
      items-IsKey (omega arith) (omega arith)

walk_complete_example :
    walk plain (codes param_page_token) scopes codes 4 items 2 url [] ≡ some items
walk_complete_example =
    walk_complete plain (codes param_page_token) scopes codes items 2 url items-IsSorted items-IsKey
      (omega arith) (omega arith)

next_url-IsLocal_example :
    IsLocal
      (codes param_page_token)
      url
      (codes "t")
      (next_url (codes param_page_token) url (codes "t"))
next_url-IsLocal_example = next_url-IsLocal (codes param_page_token) url (codes "t")
