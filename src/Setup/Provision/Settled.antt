-- ===== src/Setup/Provision/Settled.antt =====
-- The step `token` of internal/core/setup/provision.go is done once it is applied: a second run finds the
-- token that it minted.
use weave_adapters.Prelude.Text.{Text}
use weave_adapters.Prelude.{
  ℕ, ◌<◌, ◌≤◌, ltb, Bool, ◌≡◌, ◌⊎◌, ◌∙◌, refl, sym, ap, subst, true, false, not, Option, none, some,
  [], ◌∷◌, if◌then◌else◌, arith, inl, inr, Bool-cases, Option-cases, lt→ltb, not_ltb→le,
}
use weave_adapters.Auth.Store.{
  Entry, Store, Answer, ok, err, Err, Crypto, missing, unreadable_file, content, expired,
  duplicate_label, unknown_label, invalid_label, invalid_hash, not_exist, unreadable, unparsable,
  no_random_bytes, checked, parsed, or_empty, load, load_or_empty, validate, mint,
}
use weave_adapters.Auth.Store.{File as Reading}
use weave_adapters.Auth.Labels.{IsValid, validate_iff}
use weave_adapters.Auth.Minted.{IsSha256, IsMinted, mint-IsMinted}
use weave_adapters.Auth.Save.{Bytes, Trace, save, save-IsAtomic}
use weave_adapters.Auth.Expiry.{marshal, unmarshal}
use weave_adapters.Auth.Expiry.Seconds.{
  in_seconds, cut_store, IsRfc3339, IsToml, unmarshal-marshal, cut_store-IsMinted,
}
use weave_adapters.Auth.Verifier.{usable, judge}
use weave_adapters.Auth.Admission.{IsIn, verify-IsKnown}
use weave_adapters.Setup.Reconcile.{satisfied, Verdict, Plan, verdict, step_failed}
use weave_adapters.Setup.Provision.{
  World, TokenEnv, TokenAnswers, reading, load_tokens, check_token, with_files, saved, minted,
  expiry, apply_expiring, apply_loaded, apply_token,
}

ok-injective : {s t : Store} → Path (Answer Store) (ok s) (ok t) → s ≡ t
ok-injective h = ground (arith, h)

or_empty-ok : (a : Answer Store) (t : Store) → or_empty a ≡ ok t → (a ≡ ok t) ⊎ (t ≡ [])
or_empty-ok (ok s) t h = inl h
or_empty-ok (err not_exist) t h = inr (sym (ok-injective h))
or_empty-ok (err duplicate_label) t h = inl h
or_empty-ok (err unknown_label) t h = inl h
or_empty-ok (err invalid_label) t h = inl h
or_empty-ok (err invalid_hash) t h = inl h
or_empty-ok (err unreadable) t h = inl h
or_empty-ok (err unparsable) t h = inl h
or_empty-ok (err no_random_bytes) t h = inl h

checked-ok : (e : Option Err) (s t : Store) → checked e s ≡ ok t → (e ≡ none) × (s ≡ t)
checked-ok none s t h = (refl, ok-injective h)
checked-ok (some e) s t h = ground (arith, h)

parsed-IsValid : (o : Option Store) (t : Store) → parsed o ≡ ok t → IsValid t
parsed-IsValid none t h = ground (arith, h)
parsed-IsValid (some s) t h =
    let (v, q) = checked-ok (validate s) s t h in subst IsValid q ((validate_iff s).0 v)

load-IsValid : (u : Bytes → Option Store) (r : Reading) (t : Store) → load u r ≡ ok t → IsValid t
unfolding load
load-IsValid u missing t h = ground (arith, h)
load-IsValid u unreadable_file t h = ground (arith, h)
load-IsValid u (content b) t h = parsed-IsValid (u b) t h

-- What is loaded is valid.
load_or_empty-IsValid :
    (u : Bytes → Option Store) (r : Reading) (t : Store) → load_or_empty u r ≡ ok t → IsValid t
unfolding load_or_empty
load_or_empty-IsValid u r t h = elim (or_empty-ok (load u r) t h) [
  | inl q ↦ load-IsValid u r t q
  | inr q ↦ subst IsValid (sym q) tt
]

IsIn-usable :
    (now : ℕ) (e : Entry) (s : Store) → IsIn e s → expired e now ≡ false → 0 < usable now s
unfolding usable
IsIn-usable now e [] i x = elim i [ ]
IsIn-usable now e (d ∷ s) (inl q) x = rw (ap (λ d. expired d now) q ∙ x) (omega arith)
IsIn-usable now e (d ∷ s) (inr i) x = ground (arith, IsIn-usable now e s i x)

module _ {V : Type 0} (env : TokenEnv V) where
  -- The check of the step is satisfied, and changes nothing.
  abbrev pub IsDone : ℕ → Plan (World V) → Type 0
  IsDone later q =
      (v : Verdict) × (check_token env later q ≡ (q, verdict v)) × (v.condition ≡ satisfied)

  -- The plan has the text of a token, and the file a store in which the verifier finds it, with the expiry that
  -- was asked for, cut to its second; up to that the step is done.
  pub record IsSettled (now : ℕ) (q : Plan (World V)) : Type 0 where
    pub token : Text
    pub expires : Option ℕ
    pub store : Store
    pub asked : expiry env now ≡ some expires
    pub shown : q.token ≡ env.token_text token
    pub stored : load_tokens env q ≡ ok store
    pub found : IsMinted env.crypto env.label token (in_seconds expires) store
    pub settled :
        (later : ℕ) → IsDone later q ⊎ ((x : ℕ) × (in_seconds expires ≡ some x) × (x ≤ later))

  -- what loading gives behind a store that was written
  load-written :
      (d : Bytes) (t : Store)
      → (unmarshal env.times env.toml) d ≡ some t
      → IsValid t
      → load_or_empty (unmarshal env.times env.toml) (content d) ≡ ok t
  unfolding load_or_empty load
  load-written d t u v = rw (u, (validate_iff t).1 v) refl

  unexpired :
      (later : ℕ) (e : Entry)
      → ((x : ℕ) → e.expires_at ≡ some x → later < x)
      → expired e later ≡ false
  unfolding expired
  unexpired later e h = elim (Option-cases e.expires_at) [
    | inl n ↦ rw n refl
    | inr (x, q) ↦ rw (q, lt→ltb later x (h x q)) refl
  ]

  not_expired :
      (expires : Option ℕ) (later : ℕ)
      → ((x : ℕ) → expires ≡ some x → later < x) ⊎ ((x : ℕ) × (expires ≡ some x) × (x ≤ later))
  not_expired none later = inl (λ x h. ground (arith, h))
  not_expired (some t) later = elim (Bool-cases (ltb later t)) [
    | inl l ↦ inl (λ x h. ground (arith, h, l))
    | inr l ↦ inr (t, refl, not_ltb→le later t l)
  ]

  minted-usable :
      (c : Crypto) (label token : Text) (expires : Option ℕ) (t : Store) (later : ℕ)
      → IsMinted c label token expires t
      → ((x : ℕ) → expires ≡ some x → later < x)
      → 0 < usable later t
  unfolding judge
  minted-usable c label token expires t later m h =
      let x = unexpired later m.entry (λ x q. h x (sym m.expiring ∙ q)) in
      let k = verify-IsKnown c later t token m.entry (m.accepted later ∙ rw x refl) in
      IsIn-usable later m.entry t k.stored x

  check-usable :
      (later : ℕ) (q : Plan (World V)) (t : Store)
      → load_tokens env q ≡ ok t
      → 0 < usable later t
      → IsDone later q
  unfolding check_token
  check-usable later q t l u = elim (Bool-cases (env.auth_disabled q.others.values)) [
    | inl d ↦ (
      record {
        condition = satisfied;
        detail = "%s is true, so nothing reads the token store; no token was minted";
      },
      rw d refl,
      refl,
    )
    | inr d ↦ (
      record { condition = satisfied; detail = "%s already holds a usable token" },
      rw (d, l, lt→ltb 0 (usable later t) u) refl,
      refl,
    )
  ]

  saved-closed :
      (a : TokenAnswers) (p : Plan (World V)) (token : Text) (t : Trace)
      → t.ok ≡ true
      → saved env a p token t ≡ (
        record (with_files env t.final p) { token = env.token_text token },
        if not a.secured then some (step_failed "locking down %q: %w") else none,
      )
  saved-closed a p token t g = rw g refl

  saved-trace :
      (a : TokenAnswers) (p q : Plan (World V)) (token : Text) (t : Trace)
      → saved env a p token t ≡ (q, none)
      → (t.ok ≡ true) × (q.token ≡ env.token_text token) × (q.others.token_files ≡ t.final)
  saved-trace a p q token t h = elim (Bool-cases t.ok) [
    | inr f ↦ ground (arith, h, f)
    | inl g ↦
        let same = saved-closed a p token t g in
        (g, ap (λ r. r.0.token) (sym h ∙ same), ap (λ r. r.0.others.token_files) (sym h ∙ same))
  ]

  nothing-saved :
      (a : TokenAnswers) (p : Plan (World V))
      → (save a.outcomes none p.others.token_files).ok ≡ false
  unfolding save
  nothing-saved a p = refl

  either_saved : {b : Bool} {P : Type 0} → b ≡ true → (b ≡ false) ⊎ P → P
  either_saved t (inl f) = ground (arith, t, f)
  either_saved t (inr p) = p

  -- What `Save` and what is behind it leave, where there is no error.
  saved-ok :
      (a : TokenAnswers) (p q : Plan (World V)) (token : Text) (o : Option Bytes)
      → saved env a p token (save a.outcomes o p.others.token_files) ≡ (q, none)
      → (d : Bytes) × (o ≡ some d)
        × (q.token ≡ env.token_text token)
        × (reading q.others.token_files.target ≡ content d)
  saved-ok a p q token none h = ground (
    arith,
    saved-trace a p q token (save a.outcomes none p.others.token_files) h,
    nothing-saved a p,
  )
  saved-ok a p q token (some d) h =
      let atomic = (save-IsAtomic a.outcomes p.others.token_files d).0 in
      let (done, shown, files) =
        saved-trace a p q token (save a.outcomes (some d) p.others.token_files) h in
      (
        d,
        refl,
        shown,
        ap (λ fs. reading fs.target) files ∙ ap reading (either_saved done atomic.saved).0,
      )

  minted-ok :
      (a : TokenAnswers) (p q : Plan (World V)) (x : Answer (Text × Store))
      → minted env a p x ≡ (q, none)
      → (token : Text) × (t : Store) × (x ≡ ok (token, t))
        × (saved env a p token (save a.outcomes (marshal env.times env.toml t) p.others.token_files)
            ≡ (q, none))
  minted-ok a p q (err e) h = ground (arith, h)
  minted-ok a p q (ok (token, t)) h = (token, t, refl, h)

  reloaded :
      (q : Plan (World V)) (d : Bytes) (t : Store)
      → reading q.others.token_files.target ≡ content d
      → (unmarshal env.times env.toml) d ≡ some t
      → IsValid t
      → load_tokens env q ≡ ok t
  unfolding load_tokens
  reloaded q d t file u v =
      ap (load_or_empty (unmarshal env.times env.toml)) file ∙ load-written d t u v

  minted-IsSettled :
      (now : ℕ) (a : TokenAnswers) (p q : Plan (World V)) (s : Store) (o : Option (Option ℕ))
      → IsSha256 env.crypto
      → IsRfc3339 env.times
      → IsToml env.toml
      → IsValid s
      → expiry env now ≡ o
      → apply_expiring env now a p s o ≡ (q, none)
      → IsSettled now q
  minted-IsSettled now a p q s none k r u v e h = ground (arith, h)
  minted-IsSettled now a p q s (some expires) k r u v e h =
      let (token, t, x, y) = minted-ok a p q (mint env.crypto env.label now expires a.random s) h in
      let (d, m, shown, file) = saved-ok a p q token (marshal env.times env.toml t) y in
      let found =
        cut_store-IsMinted env.crypto env.label token expires t
          (mint-IsMinted env.crypto k env.label now expires a.random s t token v x) in
      let stored =
        reloaded q d (cut_store t) file (unmarshal-marshal env.times r env.toml u t d m)
          found.valid in
      record {
        token = token;
        expires = expires;
        store = cut_store t;
        asked = e;
        shown = shown;
        stored = stored;
        found = found;
        settled = λ later. elim (not_expired (in_seconds expires) later) [
          | inl l ↦ inl (
              check-usable later q (cut_store t) stored (
                minted-usable env.crypto env.label token (in_seconds expires) (cut_store t) later
                  found l))
          | inr e ↦ inr e
        ];
      }

  loaded-IsSettled :
      (now : ℕ) (a : TokenAnswers) (p q : Plan (World V)) (o : Answer Store)
      → IsSha256 env.crypto
      → IsRfc3339 env.times
      → IsToml env.toml
      → load_tokens env p ≡ o
      → apply_loaded env now a p o ≡ (q, none)
      → IsSettled now q
  unfolding load_tokens
  loaded-IsSettled now a p q (err x) k r u l h = ground (arith, h)
  loaded-IsSettled now a p q (ok s) k r u l h =
      minted-IsSettled now a p q s (expiry env now) k r u
        (load_or_empty-IsValid (unmarshal env.times env.toml) (reading p.others.token_files.target)
          s l)
        refl h

  -- Where `Apply` of the step `token` returns no error, the plan and the store are as `IsSettled` says, if
  -- SHA-256 gives 32 bytes, RFC 3339 reads back to the second and TOML reads back what it wrote: a second
  -- run finds the token, until the second of its expiry.
  pub apply_token-IsSettled :
      (now : ℕ) (a : TokenAnswers) (p q : Plan (World V))
      → IsSha256 env.crypto
      → IsRfc3339 env.times
      → IsToml env.toml
      → apply_token env now a p ≡ (q, none)
      → IsSettled now q
  unfolding apply_token
  apply_token-IsSettled now a p q k r u h =
      loaded-IsSettled now a p q (load_tokens env p) k r u refl h
