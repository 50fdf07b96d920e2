-- ===== src/Auth/Admission.antt =====
-- Who internal/core/auth lets in, by verifier.go and bearer.go: exactly the bearers of a token of the store.
use weave_adapters.Prelude.Text.{Text, text_eq, text_eq_iff}
use weave_adapters.Prelude.{
  ℕ, ◌≡◌, ◌⊎◌, ◌↔◌, ◌∙◌, refl, sym, ap, subst, true, false, Option, none, some, List, [], ◌∷◌,
  arith, inl, inr, Bool-cases,
}
use weave_adapters.Auth.Store.{Entry, Store, Crypto, hash_of, expired}
use weave_adapters.Auth.Verifier.{
  Verified, known, unknown_token, token_expired, match_hash, judge, verify,
}
use weave_adapters.Auth.Bearer.{accepted, cut_space, bearer_token, judged, with_token, authenticate}

abbrev pub IsIn : Entry → Store → Type 0
IsIn e [] = ⊥
IsIn e (d ∷ s) = (d ≡ e) ⊎ IsIn e s

match_hash_sound :
    (h : Text) (s : Store) (o : Option Entry) (e : Entry)
    → match_hash h s o ≡ some e
    → (o ≡ some e) ⊎ (IsIn e s × (h ≡ e.hash))
unfolding match_hash
match_hash_sound h [] o e m = inl m
match_hash_sound h (d ∷ s) o e m = elim (match_hash_sound h s _ e m) [
  | inr (i, q) ↦ inr (inr i, q)
  | inl q ↦ elim (Bool-cases (text_eq h d.hash)) [
    | inr f ↦ inl (ground (arith, q, f))
    | inl t ↦
        let same : d ≡ e = ground (arith, q, t) in
        inr (inl same, (text_eq_iff h d.hash).0 t ∙ ap (λ e. e.hash) same)
  ]
]

match_hash-kept :
    (h : Text) (s : Store) (e : Entry)
    → ((d : Entry) → IsIn d s → h ≡ d.hash → d ≡ e)
    → match_hash h s (some e) ≡ some e
unfolding match_hash
match_hash-kept h [] e u = refl
match_hash-kept h (d ∷ s) e u = elim (Bool-cases (text_eq h d.hash)) [
  | inl t ↦
      let same = u d (inl refl) ((text_eq_iff h d.hash).0 t) in
      rw (t, same) (match_hash-kept h s e (λ d i. u d (inr i)))
  | inr f ↦ rw f (match_hash-kept h s e (λ d i. u d (inr i)))
]

match_hash_complete :
    (h : Text) (s : Store) (o : Option Entry) (e : Entry)
    → IsIn e s
    → h ≡ e.hash
    → ((d : Entry) → IsIn d s → h ≡ d.hash → d ≡ e)
    → match_hash h s o ≡ some e
unfolding match_hash
match_hash_complete h [] o e i q u = elim i [ ]
match_hash_complete h (d ∷ s) o e (inl same) q u =
    rw (same, (text_eq_iff h e.hash).1 q) (match_hash-kept h s e (λ d i. u d (inr i)))
match_hash_complete h (d ∷ s) o e (inr i) q u = match_hash_complete h s _ e i q (λ d i. u d (inr i))

-- No two entries of the store have the same hash.
abbrev pub HasOwnHashes : Store → Type 0
HasOwnHashes s = (d e : Entry) → IsIn d s → IsIn e s → d.hash ≡ e.hash → d ≡ e

-- The entry is of the store, holds the hash of the token, and is not past its expiry.
pub record IsKnown (c : Crypto) (now : ℕ) (s : Store) (token : Text) (e : Entry) : Type 0 where
  pub stored : IsIn e s
  pub hashed : hash_of c token ≡ e.hash
  pub unexpired : expired e now ≡ false

some-injective : {d e : Entry} → Path (Option Entry) (some d) (some e) → d ≡ e
some-injective h = ground (arith, h)

true_is_not_false : true ≡ false → ⊥
true_is_not_false h = ground (arith, h)

judge-known_iff :
    (now : ℕ) (o : Option Entry) (e : Entry)
    → (judge now o ≡ known e) ↔ ((o ≡ some e) × (expired e now ≡ false))
unfolding judge
judge-known_iff now none e = ground arith
judge-known_iff now (some d) e = elim (Bool-cases (expired d now)) [
  | inl t ↦ (
    λ h. ground (arith, h, t),
    λ (q, f). absurd (true_is_not_false (sym t ∙ ap (λ e. expired e now) (some-injective q) ∙ f)),
  )
  | inr f ↦ (
    λ h.
        let same : d ≡ e = ground (arith, h, f) in
        (ap some same, sym (ap (λ e. expired e now) same) ∙ f),
    λ (q, g). ground (arith, q, f),
  )
]

module _ (c : Crypto) (now : ℕ) (s : Store) where
  -- Whom `Verify` knows holds the token.
  pub verify-IsKnown :
      (token : Text) (e : Entry) → verify c now s token ≡ known e → IsKnown c now s token e
  unfolding verify
  verify-IsKnown token e v =
      let judged = (judge-known_iff now (match_hash (hash_of c token) s none) e).0 v in
      elim (match_hash_sound (hash_of c token) s none e judged.0) [
        | inl n ↦ ground (arith, n)
        | inr (i, q) ↦ record { stored = i; hashed = q; unexpired = judged.1 }
      ]

  pub verify-IsKnown_iff :
      (token : Text) (e : Entry)
      → HasOwnHashes s
      → (verify c now s token ≡ known e) ↔ IsKnown c now s token e
  unfolding verify
  verify-IsKnown_iff token e u =
      let h = hash_of c token in
      let judged = judge-known_iff now (match_hash h s none) e in
      (
        λ v. verify-IsKnown token e v,
        λ k. judged.1 (
          match_hash_complete h s none e k.stored k.hashed
              (λ d i q. u d e i k.stored (sym q ∙ k.hashed)),
          k.unexpired,
        ),
      )

  -- There is one Authorization header, and it carries a bearer token with that entry.
  pub record IsAdmitted (headers : List Text) (e : Entry) : Type 0 where
    pub header : Text
    pub alone : headers ≡ header ∷ []
    pub token : Text
    pub carried : bearer_token header ≡ some token
    pub holder : IsKnown c now s token e

  judged-accepted_iff : (v : Verified) (e : Entry) → (judged v ≡ accepted e) ↔ (v ≡ known e)
  judged-accepted_iff (known d) e = ground arith
  judged-accepted_iff unknown_token e = ground arith
  judged-accepted_iff (token_expired d) e = ground arith

  with_token-accepted :
      (header : Text) (o : Option Text) (e : Entry)
      → (with_token c now s header o ≡ accepted e)
        ↔ ((token : Text) × (o ≡ some token) × (verify c now s token ≡ known e))
  with_token-accepted header none e = (λ h. ground (arith, h), λ (token, n, v). ground (arith, n))
  with_token-accepted header (some token) e =
      let inner = judged-accepted_iff (verify c now s token) e in
      (
        λ h. (token, refl, inner.0 h),
        λ (t, q, v).
            inner.1 (subst (λ t. verify c now s t ≡ known e) (sym (some_token-injective q)) v),
      )
    where
      some_token-injective : {t u : Text} → Path (Option Text) (some t) (some u) → t ≡ u
      some_token-injective h = ground (arith, h)

  one_header :
      (header : Text) (e : Entry)
      → (authenticate c now s (header ∷ []) ≡ accepted e)
        ↔ (with_token c now s header (bearer_token header) ≡ accepted e)
  unfolding authenticate bearer_token cut_space
  one_header [] e = ground arith
  one_header (ch ∷ header) e = (λ h. h, λ h. h)

  -- Where no two entries have the same hash, `authenticate` accepts an entry exactly if the only
  -- Authorization header carries a bearer token whose hash the entry holds, and the entry is of the store
  -- and unexpired.
  pub authenticate-IsAdmitted_iff :
      HasOwnHashes s
      → (headers : List Text) (e : Entry)
      → (authenticate c now s headers ≡ accepted e) ↔ IsAdmitted headers e
  unfolding authenticate
  authenticate-IsAdmitted_iff u [] e = (λ h. ground (arith, h), λ a. ground (arith, a.alone))
  authenticate-IsAdmitted_iff u (header ∷ []) e =
      let outer = one_header header e in
      let inner = with_token-accepted header (bearer_token header) e in
      (
        λ h.
            let (token, q, v) = inner.0 (outer.0 h) in
            record {
              header = header;
              alone = refl;
              token = token;
              carried = q;
              holder = (verify-IsKnown_iff token e u).0 v;
            },
        λ a.
            let same : a.header ≡ header = ground (arith, a.alone) in
            outer.1 (
              inner.1 (
                a.token,
                subst (λ h. bearer_token h ≡ some a.token) same a.carried,
                (verify-IsKnown_iff a.token e u).1 a.holder,
              )),
      )
  authenticate-IsAdmitted_iff u (h ∷ g ∷ more) e =
      (λ h. ground (arith, h), λ a. ground (arith, a.alone))
