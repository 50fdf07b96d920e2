-- ===== src/Auth/Minted.antt =====
-- A token from mint.go of internal/core/auth, in front of its verifier.
use weave_adapters.Prelude.Text.{Text, text, text_eq_refl}
use weave_adapters.Prelude.{
  ℕ, ◌*◌, ◌<◌, ◌≡◌, refl, ap, ap₂, subst, true, Option, none, some, List, [], ◌∷◌, ◌++◌, arith, All,
  length,
}
use weave_adapters.Auth.Store.{
  Entry, Store, Answer, ok, err, is_hash, cut_prefix, every, is_hex_digit, hex, hash_algorithm,
  Crypto, hash_of, generate, mint, add, minted_entry, added, mint_token,
}
use weave_adapters.Auth.Labels.{IsValid, add-ok, add-IsValid}
use weave_adapters.Auth.Verifier.{match_hash, judge, verify}

-- SHA-256 gives 32 bytes.
pub record IsSha256 (c : Crypto) : Type 0 where
  pub size : (t : Text) → length (c.sum t) ≡ 32
  pub bytes : (t : Text) → All (λ b. b < 256) (c.sum t)

every-hex : (bs : List ℕ) → All (λ b. b < 256) bs → every is_hex_digit (hex bs) ≡ true
unfolding every hex
every-hex [] h = refl
every-hex (b ∷ bs) h = ground (arith, h.0, every-hex bs h.1)

length-hex : (bs : List ℕ) → length (hex bs) ≡ 2 * length bs
unfolding hex
length-hex [] = omega arith
length-hex (b ∷ bs) = omega (arith, length-hex bs)

cut_prefix-append : (p t : Text) → cut_prefix p (p ++ t) ≡ some t
unfolding cut_prefix
cut_prefix-append [] t = refl
cut_prefix-append (c ∷ p) t = ground (arith, cut_prefix-append p t)

hash_of-is_hash : (c : Crypto) → IsSha256 c → (token : Text) → is_hash (hash_of c token) ≡ true
unfolding is_hash hash_of
hash_of-is_hash c k token =
    rw (cut_prefix-append (hash_algorithm ++ text ":") (hex (c.sum token))) (
      ground
        (arith, every-hex (c.sum token) (k.bytes token), length-hex (c.sum token), k.size token))

match_hash-snoc :
    (e : Entry) (s : Store) (o : Option Entry) → match_hash e.hash (s ++ e ∷ []) o ≡ some e
unfolding match_hash
match_hash-snoc e [] o = rw (text_eq_refl e.hash) refl
match_hash-snoc e (d ∷ s) o = match_hash-snoc e s _

-- The store with a new token is valid, and whatever else is in it the verifier takes the token for its
-- entry, up to its expiry.
pub record IsMinted (c : Crypto) (label token : Text) (expires : Option ℕ) (t : Store)
    : Type 0 where
  pub valid : IsValid t
  pub entry : Entry
  pub labelled : entry.label ≡ label
  pub expiring : entry.expires_at ≡ expires
  pub matched : match_hash (hash_of c token) t none ≡ some entry
  pub accepted : (later : ℕ) → verify c later t token ≡ judge later (some entry)

added-ok :
    (c : Crypto) (token u : Text) (a : Answer Store) (t : Store)
    → added c token a ≡ ok (u, t)
    → (token ≡ u) × (a ≡ ok t)
added-ok c token u (ok s) t h = (ground (arith, h), ground (arith, h))
added-ok c token u (err e) t h = ground (arith, h)

mint_token-IsMinted :
    (c : Crypto)
    → IsSha256 c
    → (label : Text) (now : ℕ) (expires : Option ℕ) (s t : Store) (g : Answer Text) (token : Text)
    → IsValid s
    → mint_token c label now expires s g ≡ ok (token, t)
    → IsMinted c label token expires t
unfolding verify
mint_token-IsMinted c k label now expires s t (err e) token v h = ground (arith, h)
mint_token-IsMinted c k label now expires s t (ok u) token v h =
    let entry = minted_entry c label now expires u in
    let (same, a) = added-ok c u token (add entry s) t h in
    let (l, r, o) = add-ok entry s t a in
    let both : Path (Text × Store) (u, s ++ entry ∷ []) (token, t) = ap₂ (λ a b. (a, b)) same r in
    record {
      valid = add-IsValid entry s t v (hash_of-is_hash c k u) a;
      entry = entry;
      labelled = refl;
      expiring = refl;
      matched =
          subst (λ x. match_hash (hash_of c x.0) x.1 none ≡ some entry) both
            (match_hash-snoc entry s none);
      accepted = λ later.
          subst (λ x. judge later (match_hash (hash_of c x.0) x.1 none) ≡ judge later (some entry))
            both (ap (judge later) (match_hash-snoc entry s none));
    }

-- `Mint` on a valid store gives what `IsMinted` says, where SHA-256 gives 32 bytes.
pub mint-IsMinted :
    (c : Crypto)
    → IsSha256 c
    → (label : Text) (now : ℕ) (expires : Option ℕ) (random : Option (List ℕ)) (s t : Store)
      (token : Text)
    → IsValid s
    → mint c label now expires random s ≡ ok (token, t)
    → IsMinted c label token expires t
unfolding mint
mint-IsMinted c k label now expires random s t token v h =
    mint_token-IsMinted c k label now expires s t (generate c random) token v h
