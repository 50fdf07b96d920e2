-- ===== src/Auth/Store.antt =====
-- internal/core/auth/store.go, token.go and mint.go: tokens under their labels. An instant is a number,
-- later ones larger. `sum` stands for SHA-256, and the random bytes of a token are its argument.
use weave_adapters.Prelude.Text.{Text, text, text_eq}
use weave_adapters.Prelude.{
  ℕ, ◌+◌, ◌/◌, ◌%◌, Bool, true, false, not, ◌&&◌, ◌||◌, Option, none, some, List, [], ◌∷◌, ◌++◌,
  ltb, leb, ◌==◌, if◌then◌else◌, length,
}

abbrev pub is_alphanumeric : ℕ → Bool
is_alphanumeric c = (leb 97 c && leb c 122) || (leb 65 c && leb c 90) || (leb 48 c && leb c 57)

abbrev pub is_label_char : ℕ → Bool
is_label_char c = is_alphanumeric c || c == 95 || c == 45

abbrev pub is_hex_digit : ℕ → Bool
is_hex_digit c = (leb 48 c && leb c 57) || (leb 97 c && leb c 102)

unfoldable pub every : (ℕ → Bool) → Text → Bool
every f [] = true
every f (c ∷ cs) = f c && every f cs

-- `labelPattern`
unfoldable pub is_label : Text → Bool
is_label [] = false
is_label (c ∷ cs) = is_alphanumeric c && (every is_label_char cs && leb (length cs) 63)

abbrev pub hash_algorithm : Text
hash_algorithm = text "sha256"

-- the text behind a prefix
unfoldable pub cut_prefix : Text → Text → Option Text
cut_prefix [] t = some t
cut_prefix (p ∷ ps) [] = none
cut_prefix (p ∷ ps) (c ∷ cs) = let rest = cut_prefix ps cs in if p == c then rest else none

abbrev is_digest : Option Text → Bool
is_digest none = false
is_digest (some d) = every is_hex_digit d && length d == 64

-- `hashPattern`
unfoldable pub is_hash : Text → Bool
is_hash h = is_digest (cut_prefix (hash_algorithm ++ text ":") h)

pub data Err : Type 0 where
  duplicate_label unknown_label invalid_label invalid_hash : Err
  not_exist unreadable unparsable no_random_bytes : Err

pub record Entry : Type 0 where
  pub label : Text
  pub hash : Text
  pub created_at : ℕ
  pub expires_at : Option ℕ

-- `Entry.Expired`
unfoldable pub expired : Entry → ℕ → Bool
expired e now = elim e.expires_at [ none ↦ false | some t ↦ not (ltb now t) ]

abbrev pub Store : Type 0
Store = List Entry

pub data Answer (A : Type 0) : Type 0 where
  ok : A → Answer A
  err : Err → Answer A

-- `Find`
unfoldable pub find : Text → Store → Option Entry
find label [] = none
find label (e ∷ s) = if text_eq e.label label then some e else find label s

unfoldable pub has_label : Text → List Text → Bool
has_label label [] = false
has_label label (l ∷ seen) = text_eq l label || has_label label seen

-- `validate`, with the labels seen; `none` is no error
unfoldable pub validate_from : List Text → Store → Option Err
validate_from seen [] = none
validate_from seen (e ∷ s) =
    let rest = validate_from (e.label ∷ seen) s in
    if not (is_label e.label)
    then some invalid_label
    else if has_label e.label seen
    then some duplicate_label
    else if not (is_hash e.hash)
    then some invalid_hash
    else rest

unfoldable pub validate : Store → Option Err
validate s = validate_from [] s

-- `Add`
unfoldable pub add : Entry → Store → Answer Store
add e s =
    if not (is_label e.label)
    then err invalid_label
    else elim (find e.label s) [ some found ↦ err duplicate_label | none ↦ ok (s ++ e ∷ []) ]

-- an entry in front of an answer
abbrev pub keep : Entry → Answer Store → Answer Store
keep e (ok s) = ok (e ∷ s)
keep e (err x) = err x

-- `Revoke`
unfoldable pub revoke : Text → Store → Answer Store
revoke label [] = err unknown_label
revoke label (e ∷ s) =
    let rest = keep e (revoke label s) in if text_eq e.label label then ok s else rest

-- what reading the file comes to
pub data File : Type 0 where
  missing unreadable_file : File
  content : Text → File

abbrev pub checked : Option Err → Store → Answer Store
checked none s = ok s
checked (some e) s = err e

abbrev pub parsed : Option Store → Answer Store
parsed none = err unparsable
parsed (some s) = checked (validate s) s

-- `Load`; `unmarshal` is the TOML library's, with the `UnmarshalText` of Expiry
unfoldable pub load : (Text → Option Store) → File → Answer Store
load unmarshal missing = err not_exist
load unmarshal unreadable_file = err unreadable
load unmarshal (content t) = parsed (unmarshal t)

abbrev pub or_empty : Answer Store → Answer Store
or_empty (err not_exist) = ok []
or_empty a = a

-- `LoadOrEmpty`
unfoldable pub load_or_empty : (Text → Option Store) → File → Answer Store
load_or_empty unmarshal f = or_empty (load unmarshal f)

-- `hex.EncodeToString`
abbrev pub hex_digit : ℕ → ℕ
hex_digit n = if ltb n 10 then 48 + n else 87 + n

unfoldable pub hex : List ℕ → Text
hex [] = []
hex (b ∷ bs) = hex_digit (b / 16) ∷ hex_digit (b % 16) ∷ hex bs

abbrev pub token_prefix : Text
token_prefix = text "wadapt_"

-- The cryptographic functions, and `base64.RawURLEncoding`.
pub record Crypto : Type 0 where
  pub sum : Text → List ℕ
  pub encode_base64 : List ℕ → Text

module _ (c : Crypto) where
  -- `Hash`
  unfoldable pub hash_of : Text → Text
  hash_of token = (hash_algorithm ++ text ":") ++ hex (c.sum token)

  -- `Generate`, from what `rand.Read` gives
  unfoldable pub generate : Option (List ℕ) → Answer Text
  generate none = err no_random_bytes
  generate (some bytes) = ok (token_prefix ++ c.encode_base64 bytes)

  abbrev pub minted_entry : Text → ℕ → Option ℕ → Text → Entry
  minted_entry label now expires token = record {
    label = label;
    hash = hash_of token;
    created_at = now;
    expires_at = expires;
  }

  abbrev pub added : Text → Answer Store → Answer (Text × Store)
  added token (err e) = err e
  added token (ok s) = ok (token, s)

  abbrev pub mint_token : Text → ℕ → Option ℕ → Store → Answer Text → Answer (Text × Store)
  mint_token label now expires s (err e) = err e
  mint_token label now expires s (ok token) =
      added token (add (minted_entry label now expires token) s)

  -- `Mint`: the token, and the store with its entry
  unfoldable pub mint : Text → ℕ → Option ℕ → Option (List ℕ) → Store → Answer (Text × Store)
  mint label now expires random s = mint_token label now expires s (generate random)
