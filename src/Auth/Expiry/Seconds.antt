-- ===== src/Auth/Expiry/Seconds.antt =====
-- What a store of internal/core/auth/store.go reads back as: its expiries are cut to whole seconds.
use weave_adapters.Prelude.Text.{Text, text_eq}
use weave_adapters.Prelude.{
  ℕ, ◌*◌, ◌/◌, ◌≡◌, ◌∙◌, refl, sym, ap, subst, Bool, true, false, Option, none, some, List, [], ◌∷◌,
  arith, All, map, if◌then◌else◌, Bool-cases, Option-cases, inl, inr,
}
use weave_adapters.Auth.Store.{Entry, Store, Crypto, hash_of}
use weave_adapters.Auth.Labels.{IsValid, IsOther}
use weave_adapters.Auth.Minted.{IsMinted}
use weave_adapters.Auth.Verifier.{match_hash, judge, verify}
use weave_adapters.Auth.Expiry.{
  Times, Row, Toml, is_beyond, marshal_text, with_text, row_at, cons, rows, entry_of, entries,
  marshal, unmarshal,
}

-- the second that an instant is in
abbrev pub whole_seconds : ℕ → ℕ
whole_seconds t = t / 1_000_000_000 * 1_000_000_000

abbrev pub in_seconds : Option ℕ → Option ℕ
in_seconds none = none
in_seconds (some t) = some (whole_seconds t)

abbrev pub cut_entry : Entry → Entry
cut_entry e = record e { expires_at = in_seconds e.expires_at }

abbrev pub cut_store : Store → Store
cut_store s = map cut_entry s

-- RFC 3339 as Go writes and reads it in UTC: a year of four digits reads back, to the second.
abbrev pub IsRfc3339 : Times → Type 0
IsRfc3339 times =
    (t : ℕ)
    → is_beyond (times.year t) ≡ false
    → times.parse (times.format t) ≡ some (whole_seconds t)

-- TOML reads back the rows that it wrote.
abbrev pub IsToml : Toml → Type 0
IsToml toml = (rs : List Row) (d : Text) → toml.encode rs ≡ some d → toml.decode d ≡ some rs

module _ (times : Times) (k : IsRfc3339 times) where
  row-entry :
      (e : Entry) (x : Option ℕ) (r : Row)
      → row_at times e x ≡ some r
      → entry_of times r r.expires_at ≡ some (record e { expires_at = in_seconds x })
  unfolding marshal_text
  row-entry e none r h =
      let same : with_text times e none ≡ r = ground (arith, h) in
      subst (λ r. entry_of times r r.expires_at ≡ some (record e { expires_at = none })) same refl
  row-entry e (some t) r h = elim (Bool-cases (is_beyond (times.year t))) [
    | inl b ↦ ground (arith, h, b)
    | inr b ↦
        let same : with_text times e (some (times.format t)) ≡ r = ground (arith, h, b) in
        subst
          (λ r.
            entry_of times r r.expires_at ≡ some (record e { expires_at = some (whole_seconds t) }))
          same (rw (k t b) refl)
  ]

  cons-some :
      {A : Type 0} (o : Option A) (p : Option (List A)) (l : List A)
      → cons times o p ≡ some l
      → (a : A) × (bs : List A) × (o ≡ some a) × (p ≡ some bs) × (a ∷ bs ≡ l)
  cons-some none none l h = ground (arith, h)
  cons-some none (some bs) l h = ground (arith, h)
  cons-some (some a) none l h = ground (arith, h)
  cons-some (some a) (some bs) l h = (a, bs, refl, refl, ground (arith, h))

  rows-entries :
      (s : Store) (rs : List Row) → rows times s ≡ some rs → entries times rs ≡ some (cut_store s)
  unfolding rows entries
  rows-entries [] rs h =
      let same : [] ≡ rs = ground (arith, h) in subst (λ rs. entries times rs ≡ some []) same refl
  rows-entries (e ∷ s) rs h =
      let (r, qs, one, rest, same) = cons-some (row_at times e e.expires_at) (rows times s) rs h in
      subst (λ rs. entries times rs ≡ some (cut_store (e ∷ s))) same
        (rw (row-entry e e.expires_at r one, rows-entries s qs rest) refl)

  pub unmarshal-marshal :
      (toml : Toml)
      → IsToml toml
      → (s : Store) (d : Text) → marshal times toml s ≡ some d
      → unmarshal times toml d ≡ some (cut_store s)
  unfolding marshal unmarshal
  unmarshal-marshal toml u s d h = elim (Option-cases (rows times s)) [
    | inl n ↦ ground (arith, h, n)
    | inr (rs, e) ↦ rw (u rs d (rw e at h)) (rows-entries s rs e)
  ]

All-cut : (label : Text) (s : Store) → All (IsOther label) s → All (IsOther label) (cut_store s)
All-cut label [] h = tt
All-cut label (e ∷ s) h = (h.0, All-cut label s h.1)

cut_store-IsValid : (s : Store) → IsValid s → IsValid (cut_store s)
cut_store-IsValid [] h = tt
cut_store-IsValid (e ∷ s) h = (h.0, h.1, All-cut e.label s h.2, cut_store-IsValid s h.3)

abbrev cut_found : Option Entry → Option Entry
cut_found none = none
cut_found (some e) = some (cut_entry e)

cut_found-if :
    (b : Bool) (e : Entry) (o : Option Entry)
    → cut_found (if b then some e else o) ≡ (if b then some (cut_entry e) else cut_found o)
cut_found-if true e o = refl
cut_found-if false e o = refl

match_hash-cut :
    (hash : Text) (s : Store) (o : Option Entry)
    → match_hash hash (cut_store s) (cut_found o) ≡ cut_found (match_hash hash s o)
unfolding match_hash
match_hash-cut hash [] o = refl
match_hash-cut hash (e ∷ s) o =
    ap (match_hash hash (cut_store s)) (sym (cut_found-if (text_eq hash e.hash) e o))
    ∙ match_hash-cut hash s (if text_eq hash e.hash then some e else o)

-- What a minted token promises still holds behind a save, up to the second.
pub cut_store-IsMinted :
    (c : Crypto) (label token : Text) (expires : Option ℕ) (t : Store)
    → IsMinted c label token expires t
    → IsMinted c label token (in_seconds expires) (cut_store t)
unfolding verify
cut_store-IsMinted c label token expires t m =
    let matched = match_hash-cut (hash_of c token) t none ∙ ap cut_found m.matched in
    record {
      valid = cut_store-IsValid t m.valid;
      entry = cut_entry m.entry;
      labelled = m.labelled;
      expiring = ap in_seconds m.expiring;
      matched = matched;
      accepted = λ later. ap (judge later) matched;
    }
