-- ===== src/Pagination/Token.antt =====
-- internal/core/pagination/token.go. The two codecs are the Go library's: base64's
-- `RawURLEncoding`, and `encoding/json` on the cursor.
use weave_adapters.Prelude.{
  ℕ, ◌+◌, ◌*◌, ◌/◌, ◌%◌, ◌≤◌, ◌≡◌, Bool, true, false, not, ◌||◌, [], ◌∷◌, Option, none, some, arith,
  ltb, ◌==◌, if◌then◌else◌, length, ◌≢◌, le→not_ltb, Bool-cases, inl, inr,
}
use weave_adapters.Pagination.Keys.{
  Bytes, compare_bytes, is_eq, compare_bytes_refl, compare_bytes_eq,
}

abbrev pub token_version : ℕ
token_version = 1

abbrev pub max_key_bytes : ℕ
max_key_bytes = 1024

pub record Cursor : Type 0 where
  pub version : ℕ
  pub scope : Bytes
  pub after : Bytes

-- `==` on strings
abbrev pub bytes_eq : Bytes → Bytes → Bool
bytes_eq a b = is_eq (compare_bytes a b)

abbrev pub is_empty : Bytes → Bool
is_empty [] = true
is_empty (x ∷ xs) = false

-- `base64.RawURLEncoding` and `encoding/json`; `none` is an error.
pub record Codec : Type 0 where
  pub encode_base64 : Bytes → Bytes
  pub decode_base64 : Bytes → Option Bytes
  pub marshal : Cursor → Bytes
  pub unmarshal : Bytes → Option Cursor

-- `RawURLEncoding.EncodedLen`
abbrev pub encoded_len : ℕ → ℕ
encoded_len n = n / 3 * 4 + (n % 3 * 8 + 5) / 6

abbrev pub max_token_len : Bytes → ℕ
max_token_len scope =
    let key_json : ℕ = (max_key_bytes + 2) / 3 * 4 + 2 in encoded_len (key_json + length scope + 64)

module _ (codec : Codec) where
  unfoldable pub encode_token : Bytes → Bytes → Bytes
  encode_token scope after =
      codec.encode_base64
        (codec.marshal (record { version = token_version; scope = scope; after = after }))

  -- the checks of a cursor that has been read
  unfoldable pub resume_key : Bytes → Cursor → Option Bytes
  resume_key scope decoded =
      if not (decoded.version == token_version) || not (bytes_eq decoded.scope scope)
      then none
      else if is_empty decoded.after
      then none
      else if ltb max_key_bytes (length decoded.after)
      then none
      else some decoded.after

  abbrev read_cursor : Bytes → Option Cursor → Option Bytes
  read_cursor scope none = none
  read_cursor scope (some decoded) = resume_key scope decoded

  abbrev read_raw : Bytes → Option Bytes → Option Bytes
  read_raw scope none = none
  read_raw scope (some raw) = read_cursor scope (codec.unmarshal raw)

  -- `none` is `ok == false`
  unfoldable pub decode_token : Bytes → Bytes → Option Bytes
  unfolding resume_key
  decode_token token scope =
      if ltb (max_token_len scope) (length token)
      then none
      else read_raw scope (codec.decode_base64 token)

  abbrev cursor_of : Bytes → Bytes → Cursor
  cursor_of scope key = record { version = token_version; scope = scope; after = key }

  -- What the two codecs promise at one cursor: each reads back what it wrote, and the token of a
  -- cursor is not empty.
  pub record Faithful (scope key : Bytes) : Type 0 where
    pub base64_reads :
        codec.decode_base64 (encode_token scope key) ≡ some (codec.marshal (cursor_of scope key))
    pub json_reads :
        codec.unmarshal (codec.marshal (cursor_of scope key)) ≡ some (cursor_of scope key)
    pub not_empty : is_empty (encode_token scope key) ≡ false

  -- The sizes of what the two codecs write at one cursor, whose scope has no character that JSON
  -- escapes: `{"v":1,"s":"`, the scope, `","k":"`, the key in padded base64 and `"}`; and four
  -- characters of unpadded base64 for each three bytes.
  pub record HasSizes (scope key : Bytes) : Type 0 where
    pub json_size :
        length (codec.marshal (cursor_of scope key)) ≡ 21 + length scope + (length key + 2) / 3 * 4
    pub base64_size :
        length (encode_token scope key) ≡ encoded_len (length (codec.marshal (cursor_of scope key)))

  resume_key-minted :
      (scope key : Bytes)
      → is_empty key ≡ false
      → length key ≤ max_key_bytes
      → resume_key scope (cursor_of scope key) ≡ some key
  unfolding resume_key
  resume_key-minted scope key e n = ground (arith, compare_bytes_refl scope)

  pub decode_token-fitting :
      (scope key : Bytes)
      → Faithful scope key
      → length (encode_token scope key) ≤ max_token_len scope
      → is_empty key ≡ false
      → length key ≤ max_key_bytes
      → decode_token (encode_token scope key) scope ≡ some key
  unfolding decode_token
  decode_token-fitting scope key f l e n =
      rw (le→not_ltb _ _ l) (rw f.base64_reads (rw f.json_reads (resume_key-minted scope key e n)))

  encoded_len_mono : (m n : ℕ) → m ≤ n → encoded_len m ≤ encoded_len n
  encoded_len_mono m n h = omega (arith, h)

  -- A token is no longer than `maxTokenLen` allows for.
  pub encode_token-fits :
      (scope key : Bytes)
      → HasSizes scope key
      → length key ≤ max_key_bytes
      → length (encode_token scope key) ≤ max_token_len scope
  encode_token-fits scope key z n =
      rw z.base64_size
        (encoded_len_mono _ (1370 + length scope + 64) (omega (arith, z.json_size, n)))

  -- A token for a key that is not empty and within the limit reads back as that key, under the scope
  -- that minted it, where each codec reads back what it wrote and their texts have the sizes that
  -- `HasSizes` says: the length bound refuses no such token.
  pub decode_token-encode_token :
      (scope key : Bytes)
      → Faithful scope key
      → HasSizes scope key
      → is_empty key ≡ false
      → length key ≤ max_key_bytes
      → decode_token (encode_token scope key) scope ≡ some key
  decode_token-encode_token scope key f z e n =
      decode_token-fitting scope key f (encode_token-fits scope key z n) e n

  -- Whatever token is sent, a key that comes out of it is neither empty nor over the limit.
  pub decode_token-bounds :
      (token scope : Bytes) {key : Bytes}
      → decode_token token scope ≡ some key
      → (is_empty key ≡ false) × (length key ≤ max_key_bytes)
  unfolding decode_token
  decode_token-bounds token scope h = ground arith

  resume_key_foreign :
      (minted scope key : Bytes) → minted ≢ scope → resume_key scope (cursor_of minted key) ≡ none
  unfolding resume_key
  resume_key_foreign minted scope key n = ground (arith, compare_bytes_eq minted scope)

  -- A token that was minted for one scope is refused by every other.
  pub decode_token_foreign :
      (minted scope key : Bytes)
      → Faithful minted key
      → minted ≢ scope
      → decode_token (encode_token minted key) scope ≡ none
  unfolding decode_token
  decode_token_foreign minted scope key f n =
      elim (Bool-cases (ltb (max_token_len scope) (length (encode_token minted key)))) [
        | inl long ↦ rw long
        | inr short ↦
            rw short (rw f.base64_reads (rw f.json_reads (resume_key_foreign minted scope key n)))
      ]
