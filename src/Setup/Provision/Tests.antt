-- ===== src/Setup/Provision/Tests.antt =====
-- A run that mints a token into a store that is not there yet. The store's text is of its one entry.
use weave_adapters.Prelude.Text.{Text, text}
use weave_adapters.Prelude.{
  ℕ, zero, suc, ◌+◌, ◌*◌, ◌/◌, ◌≡◌, refl, ap, subst, Bool, true, false, Option, none, some, List,
  [], ◌∷◌, ◌++◌, arith, length, take, drop,
}
use weave_adapters.Auth.Store.{
  Store, Crypto, find, load, load_or_empty, mint, generate, add, is_label, every,
}
use weave_adapters.Auth.Save.{save, after_create, remove_temporary}
use weave_adapters.Auth.Minted.{IsSha256}
use weave_adapters.Auth.Expiry.{Times, Row, Toml, marshal_text, expiry_in_days, rows, marshal}
use weave_adapters.Auth.Expiry.Seconds.{IsRfc3339, IsToml}
use weave_adapters.Prelude.Int.{pos}
use weave_adapters.Setup.Reconcile.{Plan, no_health}
use weave_adapters.Setup.Provision.{World, TokenEnv, TokenAnswers, load_tokens, expiry, apply_token}
use weave_adapters.Setup.Provision.Settled.{IsSettled, apply_token-IsSettled}

unfoldable copies : ℕ → List ℕ
copies zero = []
copies (suc n) = 171 ∷ copies n

abbrev crypto : Crypto
crypto = record { sum = λ t. copies 32; encode_base64 = λ bytes. text "abc" }

crypto-IsSha256 : IsSha256 crypto
unfolding copies
crypto-IsSha256 = record { size = λ t. refl; bytes = λ t. ground arith }

abbrev expiry_text : Option Text → Text → Text
expiry_text none rest = 0 ∷ rest
expiry_text (some t) rest = 1 ∷ length t ∷ (t ++ rest)

abbrev encode : List Row → Option Text
encode (r ∷ []) =
    some (length r.label ∷ (r.label ++ r.created_at ∷ expiry_text r.expires_at r.hash))
encode _ = none

abbrev read_row : Text → Text → Option (List Row)
read_row label (created_at ∷ zero ∷ hash) =
    some (record { label = label; hash = hash; created_at = created_at; expires_at = none } ∷ [])
read_row label (created_at ∷ suc n ∷ m ∷ rest) = some (
    record {
      label = label;
      hash = drop m rest;
      created_at = created_at;
      expires_at = some (take m rest);
    }
    ∷ [])
read_row label _ = none

abbrev decode : Text → Option (List Row)
decode [] = none
decode (n ∷ rest) = read_row (take n rest) (drop n rest)

take-append : (a b : Text) → take (length a) (a ++ b) ≡ a
take-append [] b = refl
take-append (x ∷ a) b = ap (λ a. x ∷ a) (take-append a b)

drop-append : (a b : Text) → drop (length a) (a ++ b) ≡ b
drop-append [] b = refl
drop-append (x ∷ a) b = drop-append a b

read_back :
    (label : Text) (created_at : ℕ) (expires : Option Text) (hash : Text)
    → read_row label (created_at ∷ expiry_text expires hash)
      ≡ some (
          record { label = label; hash = hash; created_at = created_at; expires_at = expires } ∷ [])
read_back label created_at none hash = refl
read_back label created_at (some t) hash = rw (take-append t hash, drop-append t hash) refl

decode-one :
    (r : Row)
    → decode (length r.label ∷ (r.label ++ r.created_at ∷ expiry_text r.expires_at r.hash))
      ≡ some (r ∷ [])
decode-one r =
    let rest = r.created_at ∷ expiry_text r.expires_at r.hash in
    rw (take-append r.label rest, drop-append r.label rest)
      (read_back r.label r.created_at r.expires_at r.hash)

abbrev toml : Toml
toml = record { encode = encode; decode = decode }

toml-IsToml : IsToml toml
toml-IsToml [] d h = ground (arith, h)
toml-IsToml (r ∷ []) d h = subst (λ d. decode d ≡ some (r ∷ [])) (some-injective h) (decode-one r)
  where
    some-injective : {b c : Text} → Path (Option Text) (some b) (some c) → b ≡ c
    some-injective h = ground (arith, h)
toml-IsToml (r ∷ q ∷ rs) d h = ground (arith, h)

abbrev second : ℕ
second = 1_000_000_000

abbrev read_seconds : Text → Option ℕ
read_seconds [] = none
read_seconds (n ∷ rest) = some (n * second)

-- The year is always the same, and a text is the number of seconds.
abbrev times : Times
times = record {
  year = λ t. pos 2026;
  format = λ t. t / second ∷ [];
  parse = read_seconds;
  add_days = λ t days. t + days * (86400 * second);
}

times-IsRfc3339 : IsRfc3339 times
times-IsRfc3339 t h = refl

abbrev env : TokenEnv Bool
env = record {
  crypto = crypto;
  times = times;
  toml = toml;
  auth_disabled = λ v. v;
  label = text "setup";
  expires_in_days = 2;
  token_text = λ t. "wadapt_abc";
}

abbrev answers : TokenAnswers
answers = record {
  random = some (1 ∷ []);
  outcomes = record {
    created = true;
    written = true;
    part = [];
    synced = true;
    closed = true;
    chmodded = true;
    renamed = true;
    dir_synced = true;
    removed = true;
    first_mode = 384;
  };
  secured = true;
}

abbrev plan : Plan (World Bool)
plan = record {
  config_exists = false;
  token = "";
  health = no_health;
  restart_wanted = "";
  others = record {
    config_file = some [];
    token_files = record { target = none; temporary = none };
    values = false;
  };
}

-- in the middle of a second
abbrev now : ℕ
now = 1_500_000_000

abbrev after : Plan (World Bool)
after = (apply_token env now answers plan).0

applied : apply_token env now answers plan ≡ (after, none)
unfolding apply_token load_tokens load_or_empty load expiry expiry_in_days marshal_text rows marshal
    mint generate add find is_label every text save after_create remove_temporary
applied = refl

apply_token-IsSettled_example : IsSettled env now after
apply_token-IsSettled_example =
    apply_token-IsSettled env now answers plan after crypto-IsSha256 times-IsRfc3339 toml-IsToml
      applied

abbrev kept : Store
kept =
    record { label = text "ci"; hash = []; created_at = 7; expires_at = some (7 * second + 3) } ∷ []

abbrev kept_text : Text
kept_text = 2 ∷ 99 ∷ 105 ∷ 7 ∷ 1 ∷ 1 ∷ 7 ∷ []
