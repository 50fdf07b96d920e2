-- ===== src/Pagination/Parse.antt =====
-- What the query parameters come out as.
use weave_adapters.Prelude.Int.{ℤ, pos, negsuc, pos_part}
use weave_adapters.Prelude.{
  false, refl, le→not_ltb, ℕ, ◌+◌, ◌-◌, ◌*◌, ◌^◌, ◌≤◌, ◌<◌, ◌≡◌, ◌≢◌, ◌∙◌, true, [], ◌∷◌, ◌++◌,
  Option, none, some, arith, ltb, ◌==◌, if◌then◌else◌, length, String, str_eq, str_eq_iff, All,
  Bool-cases, inl, inr, min,
}
use weave_adapters.Pagination.Keys.{Bytes}
use weave_adapters.Pagination.Token.{
  Codec, Faithful, HasSizes, is_empty, encode_token, max_key_bytes, max_token_len,
  decode_token-bounds, decode_token-fitting, encode_token-fits,
}
use weave_adapters.Pagination.Page.{
  Paginator, new, Params, at_least_one_message, must_be_integer_message, Number, value, range,
  syntax, is_digit, digits, atoi, size_of, parse_size, parse_token, size_errors, token_errors,
  params, parsed, parse, next_token,
}

-- A paginator's sizes, as numbers: what `New` accepts.
pub record Sized (p : Paginator) : Type 0 where
  pub default : ℕ
  pub max : ℕ
  pub default_is : p.default_size ≡ pos default
  pub max_is : p.max_size ≡ pos max
  pub default_positive : 1 ≤ default
  pub default_le_max : default ≤ max

abbrev pub to_ℕ : ℤ → ℕ
to_ℕ = pos_part

-- Every paginator that `New` returns without a panic has a default between 1 and its maximum.
pub new-Sized : (scope : Bytes) (d m : ℤ) {p : Paginator} → new scope d m ≡ some p → Sized p
unfolding new
new-Sized scope (pos d) (pos m) {p} h = record {
  default = d;
  max = m;
  default_is = ground arith;
  max_is = ground arith;
  default_positive = ground arith;
  default_le_max = ground arith;
}
new-Sized scope (negsuc d) m h = ground arith
new-Sized scope (pos d) (negsuc m) h = ground arith

-- the number that a text of digits stands for, behind `n`
abbrev pub horner : Bytes → ℕ → ℕ
horner [] n = n
horner (c ∷ cs) n = horner cs (n * 10 + (c - b'0'))

horner-le : (cs : Bytes) (n : ℕ) → n ≤ horner cs n
horner-le [] n = omega arith
horner-le (c ∷ cs) n = omega (arith, horner-le cs (n * 10 + (c - b'0')))

digits-horner :
    (cs : Bytes) (n : ℕ)
    → All (λ c. is_digit c ≡ true) cs
    → n < 2 ^ 64
    → digits cs n ≡ (if ltb (horner cs n) (2 ^ 64) then value (pos (horner cs n)) else range)
unfolding digits
digits-horner [] n d h = ground arith
digits-horner (c ∷ cs) n d h =
    ground (arith, digits-horner cs (n * 10 + (c - b'0')) d.1, horner-le cs (n * 10 + (c - b'0')))

atoi-horner :
    (c : ℕ) (cs : Bytes)
    → All (λ c. is_digit c ≡ true) (c ∷ cs)
    → atoi (c ∷ cs)
      ≡ (if ltb (horner (c ∷ cs) 0) (2 ^ 63) then value (pos (horner (c ∷ cs) 0)) else range)
unfolding atoi
atoi-horner c cs d = ground (arith, digits-horner (c ∷ cs) 0 d)

-- A page size sent as decimal digits, of any length, is taken as the number it stands for, clamped
-- to the maximum; only a zero is refused. The limit of the machine's integers never shows.
pub parse_size-horner :
    (p : Paginator) (s : Sized p) (c : ℕ) (cs : Bytes)
    → s.max < 2 ^ 63
    → All (λ c. is_digit c ≡ true) (c ∷ cs)
    → parse_size p (c ∷ cs) ≡ (
        if horner (c ∷ cs) 0 == 0
        then (pos 0, at_least_one_message)
        else (pos (min (horner (c ∷ cs) 0) s.max), ""))
unfolding parse_size
parse_size-horner p s c cs b d = rw (atoi-horner c cs d) (clamp (horner (c ∷ cs) 0))
  where
    clamp :
        (n : ℕ)
        → size_of p (c ∷ cs) (if ltb n (2 ^ 63) then value (pos n) else range)
          ≡ (if n == 0 then (pos 0, at_least_one_message) else (pos (min n s.max), ""))
    clamp n = rw s.max_is (elim (Bool-cases (ltb n (2 ^ 63))) [
      | inl small ↦ rw small (ground arith)
      | inr large ↦ rw large (ground arith)
    ])

at_least_one_ne_empty : at_least_one_message ≢ ""
at_least_one_ne_empty = ground (arith, str_eq_iff at_least_one_message "")

must_be_integer_ne_empty : must_be_integer_message ≢ ""
must_be_integer_ne_empty = ground (arith, str_eq_iff must_be_integer_message "")

-- Whatever is sent, a page size that is accepted lies between 1 and the collection's maximum.
pub parse_size-bounds :
    (p : Paginator) (s : Sized p) (raw : Bytes)
    → (parse_size p raw).1 ≡ ""
    → (n : ℕ) × ((parse_size p raw).0 ≡ pos n) × (1 ≤ n) × (n ≤ s.max)
unfolding parse_size
parse_size-bounds p s [] h = (s.default, s.default_is, s.default_positive, s.default_le_max)
parse_size-bounds p s (c ∷ cs) h = go (atoi (c ∷ cs)) h
  where
    go :
        (a : Number)
        → (size_of p (c ∷ cs) a).1 ≡ ""
        → (n : ℕ) × ((size_of p (c ∷ cs) a).0 ≡ pos n) × (1 ≤ n) × (n ≤ s.max)
    go range e = (s.max, ground (arith, s.max_is, at_least_one_ne_empty), omega arith, omega arith)
    go syntax e = absurd (must_be_integer_ne_empty e)
    go (value (negsuc n)) e = absurd (at_least_one_ne_empty e)
    go (value (pos n)) e = (
      min n s.max,
      ground (arith, s.max_is, at_least_one_ne_empty),
      ground (arith, at_least_one_ne_empty),
      omega arith,
    )

parsed_params :
    (size : ℤ × String) (after : Option Bytes) {r : Params}
    → parsed (size_errors size ++ token_errors after) size.0 after ≡ params r
    → (size.1 ≡ "") × (after ≡ some r.after) × (r.size ≡ size.0)
parsed_params (n, message) none h = elim (Bool-cases (str_eq message "")) [
  | inl e ↦ cc (rw e at h)
  | inr e ↦ cc (rw e at h)
]
parsed_params (n, message) (some after) h = ground (arith, str_eq_iff message "")

module _ (codec : Codec) where
  parse_token-bounds :
      (p : Paginator) (raw : Bytes) {after : Bytes}
      → parse_token codec p raw ≡ some after
      → length after ≤ max_key_bytes
  unfolding parse_token
  parse_token-bounds p [] h = ground arith
  parse_token-bounds p (c ∷ cs) h = (decode_token-bounds codec (c ∷ cs) p.scope h).1

  -- What `Parse` accepts: a size between 1 and the maximum, and a resume key that is empty, for the
  -- first page, or one that a token can carry.
  pub parse-bounds :
      (p : Paginator) (s : Sized p) (page_size page_token : Bytes) {r : Params}
      → parse codec p page_size page_token ≡ params r
      → ((n : ℕ) × (r.size ≡ pos n) × (1 ≤ n) × (n ≤ s.max)) × (length r.after ≤ max_key_bytes)
  unfolding parse
  parse-bounds p s page_size page_token {r} h =
      let (ok_size, ok_after, same) =
        parsed_params (parse_size p page_size) (parse_token codec p page_token) h in
      let (n, e, lo, hi) = parse_size-bounds p s page_size ok_size in
      ((n, same ∙ e, lo, hi), parse_token-bounds p page_token ok_after)

  pub parse_token-fitting :
      (p : Paginator) (key : Bytes)
      → Faithful codec p.scope key
      → length (encode_token codec p.scope key) ≤ max_token_len p.scope
      → is_empty key ≡ false
      → length key ≤ max_key_bytes
      → parse_token codec p (encode_token codec p.scope key) ≡ some key
  unfolding parse_token
  parse_token-fitting p key f l e n =
      rw (f.not_empty, decode_token-fitting codec p.scope key f l e n) refl

  -- For every key within the limit `Next` mints a token, and `Parse` takes it for that key: the
  -- empty token for the empty key, which is the first page's, and behind any other a token of the
  -- codecs, where these are as `Faithful` and `HasSizes` say.
  pub parse_token-next_token :
      (p : Paginator) (key : Bytes)
      → Faithful codec p.scope key
      → HasSizes codec p.scope key
      → length key ≤ max_key_bytes
      → (token : Bytes) × (next_token codec p key ≡ some token)
        × (parse_token codec p token ≡ some key)
  unfolding next_token parse_token
  parse_token-next_token p [] f z n = ([], refl, refl)
  parse_token-next_token p (c ∷ cs) f z n = (
    encode_token codec p.scope (c ∷ cs),
    rw (le→not_ltb max_key_bytes (length (c ∷ cs)) n) refl,
    parse_token-fitting p (c ∷ cs) f (encode_token-fits codec p.scope (c ∷ cs) z n) refl n,
  )
