-- ===== src/Dhcp/Promises.antt =====
-- What a client's answers promise: internal/adapters/dhcpwindows/create.go and mutate.go.
use weave_adapters.Prelude.Text.{Text, text_eq, text_eq_iff, text_eq_refl}
use weave_adapters.Prelude.{
  ◌≡◌, ◌⊎◌, ◌∙◌, sym, ap, subst, refl, Bool, true, false, not, Option, none, some, List, [], ◌∷◌,
  ◌++◌, All, arith, if◌then◌else◌, Bool-cases, inl, inr,
}
use weave_adapters.Dhcp.Create.{FieldError, ScopeInput, scope_id}
use weave_adapters.Dhcp.Env.{Env}
use weave_adapters.Dhcp.Update.{Scope, ScopeUpdate, changes_range, update_env}
use weave_adapters.Dhcp.EffectiveRange.{validate_effective_range}
use weave_adapters.Dhcp.Resize.{Resizes, validate_effective_range_iff}
use weave_adapters.Dhcp.Drift.{fingerprint_of, DriftLedger, last_seen, observe}
use weave_adapters.Dhcp.Ledger.{observe-latest}
use weave_adapters.Dhcp.Client.{
  Err, backend_timeout, backend_canceled, backend_unavailable, backend_malformed,
  duplicate_wadapt_id, scope_not_found, scope_exists, range_unusable, Script, Backend,
  update_scope_script, create_scope_script, State, Answer, ok, err, find_scope, identify,
  identify_from, with_identity, has_id, one_of, exactly_one, stamp, decode_one,
}
use weave_adapters.Dhcp.Operations.{
  backend_error, or_fail, or_return, observed, report_drift, run_script, list_scopes, resolve_scope,
  found, updated, apply_update, update_scope, created, create_output, create_at, create_scope,
}

-- the two parts of an answer that went through
abbrev Ends : {W A : Type 0} → State W × Answer A → State W → A → Type 0
Ends r t x = r ≡ (t, ok x)

err-no_end : {W A : Type 0} (e : Err) (s : State W) (t : State W) {x : A} → Ends (s, err e) t x → ⊥
err-no_end e s t h = ground (arith, ap (λ r. r.1) h)

backend_error-no_end :
    {W A : Type 0} (op : Script) (e : Err) (s t : State W) {x : A}
    → Ends (backend_error op e s) t x
    → ⊥
unfolding backend_error
backend_error-no_end op backend_timeout s t h = err-no_end _ _ _ h
backend_error-no_end op backend_canceled s t h = err-no_end _ _ _ h
backend_error-no_end op backend_unavailable s t h = err-no_end _ _ _ h
backend_error-no_end op backend_malformed s t h = err-no_end _ _ _ h
backend_error-no_end op duplicate_wadapt_id s t h = err-no_end _ _ _ h
backend_error-no_end op scope_not_found s t h = err-no_end _ _ _ h
backend_error-no_end op (scope_exists i x) s t h = err-no_end _ _ _ h
backend_error-no_end op (range_unusable i es) s t h = err-no_end _ _ _ h

or_fail-Ends :
    {W A B : Type 0} (op : Script) (a : Answer A) (k : A → State W → State W × Answer B)
    (s t : State W) {x : B}
    → Ends (or_fail op a k s) t x
    → (v : A) × (a ≡ ok v) × Ends (k v s) t x
unfolding or_fail
or_fail-Ends op (ok v) k s t h = (v, refl, h)
or_fail-Ends op (err e) k s t h = absurd (backend_error-no_end op e s t h)

module _ {W : Type 0} (b : Backend W) where
  or_return-Ends :
      {A B : Type 0} (r : State W × Answer A) (k : A → State W → State W × Answer B) (t : State W)
      {x : B}
      → Ends (or_return b r k) t x
      → (s : State W) × (v : A) × (r ≡ (s, ok v)) × Ends (k v s) t x
  or_return-Ends (s, ok v) k t h = (s, v, refl, h)
  or_return-Ends (s, err e) k t h = absurd (err-no_end e s t h)

  run_script-Ends :
      {A : Type 0} (op : Script) (env : Env) (k : Text → State W → State W × Answer A)
      (s t : State W) {x : A}
      → Ends (run_script b op env k s) t x
      → (r : State W) × (out : Text) × Ends (k out r) t x
  unfolding run_script
  run_script-Ends op env k s t h = let (out, e, g) = or_fail-Ends op _ k _ t h in (_, out, g)

  -- The scope is in a listing of the server, the first with that identity.
  abbrev pub IsFirst : Text → Scope → List Scope → Type 0
  IsFirst id x ss =
      (pre : List Scope) × (post : List Scope) × (ss ≡ pre ++ x ∷ post)
      × All (λ y. text_eq y.wadapt_id id ≡ false) pre
      × (x.wadapt_id ≡ id)

  -- An update that went through: its target is the first scope with the identity asked for of what
  -- `ListScopes` gave before it, the range is left alone or one that Windows can set in the target,
  -- the script ran once behind the listing, on the target and the request, and the answer has the
  -- identity asked for and is what the ledger has.
  pub record IsUpdated (id : Text) (inp : ScopeUpdate) (s t : State W) (u : Scope) : Type 0 where
    pub same_identity : u.wadapt_id ≡ id
    pub target : Scope
    pub listed : State W
    pub scopes : List Scope
    pub listing : list_scopes b s ≡ (listed, ok scopes)
    pub target_listed : IsFirst id target scopes
    pub range : (changes_range inp ≡ false) ⊎ Resizes inp target
    pub ran : t.world ≡ (b.runner update_scope_script (update_env inp target) listed.world).0
    pub baseline : last_seen id t.drift ≡ some (fingerprint_of u)

  observed-baseline :
      (v : Scope) (l : DriftLedger)
      → last_seen v.wadapt_id (observe l (v ∷ [])).0 ≡ some (fingerprint_of v)
  observed-baseline v l = observe-latest l (v ∷ []) v.wadapt_id ∙ rw (text_eq_refl v.wadapt_id) refl

  updated-Ends :
      (id : Text) (v : Scope) (s t : State W) {u : Scope}
      → Ends (updated b id v s) t u
      → (v.wadapt_id ≡ id) × Ends (observed (v ∷ []) s, ok v) t u
  unfolding updated
  updated-Ends id v s t {u} h = elim (Bool-cases (text_eq v.wadapt_id id)) [
    | inl e ↦ ((text_eq_iff v.wadapt_id id).0 e, matched e h)
    | inr e ↦ absurd (refused e h)
  ]
    where
      choose : Bool → State W × Answer Scope
      choose c =
          if not c
          then backend_error update_scope_script backend_malformed s
          else (observed (v ∷ []) s, ok v)

      matched :
          text_eq v.wadapt_id id ≡ true
          → choose (text_eq v.wadapt_id id) ≡ (t, ok u)
          → Ends (observed (v ∷ []) s, ok v) t u
      matched e g = sym (ap choose e) ∙ g

      refused : text_eq v.wadapt_id id ≡ false → choose (text_eq v.wadapt_id id) ≡ (t, ok u) → ⊥
      refused e g = backend_error-no_end _ _ s t (sym (ap choose e) ∙ g)

  ok-injective : {A : Type 0} {x y : A} → ok x ≡ ok y → x ≡ y
  ok-injective h = ground (arith, h)

  -- the world and the ledger that an answer leaves
  answered-baseline :
      (id : Text) (v : Scope) (s t : State W) (u : Scope)
      → v.wadapt_id ≡ id
      → Ends (observed (v ∷ []) s, ok v) t u
      → (u.wadapt_id ≡ id) × (t.world ≡ s.world) × (last_seen id t.drift ≡ some (fingerprint_of u))
  unfolding observed
  answered-baseline id v s t u same e =
      let answer : v ≡ u = ok-injective (ap (λ r. r.1) e) in
      (
        sym (ap (λ w. w.wadapt_id) answer) ∙ same,
        sym (ap (λ r. r.0.world) e),
        subst (λ w. last_seen id t.drift ≡ some (fingerprint_of w)) answer
            (subst (λ k. last_seen k t.drift ≡ some (fingerprint_of v)) same
              (subst (λ l. last_seen v.wadapt_id l ≡ some (fingerprint_of v))
                (ap (λ r. r.0.drift) e) (observed-baseline v s.drift))),
      )

  -- A script that went through has left its world behind it.
  run_script-ran :
      {A : Type 0} (op : Script) (env : Env) (k : Text → State W → State W × Answer A)
      (s t : State W) {x : A}
      → Ends (run_script b op env k s) t x
      → (r : State W) × (out : Text) × (r.world ≡ (b.runner op env s.world).0) × Ends (k out r) t x
  unfolding run_script
  run_script-ran op env k s t h = let (out, e, g) = or_fail-Ends op _ k _ t h in (_, out, refl, g)

  -- What the update on one scope leaves, where it answers.
  abbrev Applied : Text → ScopeUpdate → Scope → State W → State W → Scope → Type 0
  Applied id inp x s t u =
      ((changes_range inp ≡ false) ⊎ Resizes inp x)
      × (u.wadapt_id ≡ id)
      × (t.world ≡ (b.runner update_scope_script (update_env inp x) s.world).0)
      × (last_seen id t.drift ≡ some (fingerprint_of u))

  apply_update-Applied :
      (id : Text) (inp : ScopeUpdate) (x : Scope) (o : Option (List FieldError)) (s t : State W)
      (u : Scope)
      → validate_effective_range inp x ≡ o
      → Ends (apply_update b id inp x o s) t u
      → Applied id inp x s t u
  unfolding apply_update
  apply_update-Applied id inp x none s t u v h = absurd (backend_error-no_end _ _ s t h)
  apply_update-Applied id inp x (some (e ∷ es)) s t u v h = absurd (err-no_end _ s t h)
  apply_update-Applied id inp x (some []) s t u v h =
      let (r, out, ran, g) = run_script-ran _ _ _ s t h in
      let (y, k, l) = or_fail-Ends _ _ _ r t g in
      let (same, e) = updated-Ends id y r t l in
      let (identity, world, baseline) = answered-baseline id y r t u same e in
      ((validate_effective_range_iff inp x).0 v, identity, world ∙ ran, baseline)

  find_scope-IsFirst :
      (id : Text) (ss : List Scope) (x : Scope) → find_scope id ss ≡ some x → IsFirst id x ss
  unfolding find_scope
  find_scope-IsFirst id [] x h = ground (arith, h)
  find_scope-IsFirst id (y ∷ ss) x h = elim (Bool-cases (text_eq y.wadapt_id id)) [
    | inl e ↦
        let here : y ≡ x = ground (arith, h, e) in
        (
          [],
          ss,
          ap (λ z. z ∷ ss) here,
          tt,
          sym (ap (λ z. z.wadapt_id) here) ∙ (text_eq_iff y.wadapt_id id).0 e,
        )
    | inr e ↦
        let (pre, post, cut, others, same) = find_scope-IsFirst id ss x (ground (arith, h, e)) in
        (y ∷ pre, post, ap (λ l. y ∷ l) cut, (e, others), same)
  ]

  found-Ends :
      (o : Option Scope) (s t : State W) {x : Scope}
      → Ends (found b o s) t x
      → (o ≡ some x) × (s ≡ t)
  unfolding found
  found-Ends none s t h = absurd (err-no_end _ s t h)
  found-Ends (some y) s t h = (ap some (ok-injective (ap (λ r. r.1) h)), ap (λ r. r.0) h)

  -- What `resolveScope` finds is the first of the listing with the identity asked for.
  resolve_scope-IsFirst :
      (id : Text) (s t : State W) (x : Scope)
      → resolve_scope b id s ≡ (t, ok x)
      → (ss : List Scope) × (list_scopes b s ≡ (t, ok ss)) × IsFirst id x ss
  unfolding resolve_scope
  resolve_scope-IsFirst id s t x h =
      let (r, ss, e, g) = or_return-Ends (list_scopes b s) (λ ss. found b (find_scope id ss)) t h in
      let (o, same) = found-Ends (find_scope id ss) r t g in
      (ss, e ∙ ap (λ r. (r, ok ss)) same, find_scope-IsFirst id ss x o)

  -- Where `UpdateScope` answers with a scope, `IsUpdated` holds of it.
  pub update_scope-IsUpdated :
      (id : Text) (inp : ScopeUpdate) (s t : State W) (u : Scope)
      → update_scope b id inp s ≡ (t, ok u)
      → IsUpdated id inp s t u
  unfolding update_scope
  update_scope-IsUpdated id inp s t u h =
      let (r, x, e, g) =
        or_return-Ends (resolve_scope b id s)
          (λ x. apply_update b id inp x (validate_effective_range inp x)) t h in
      let (ss, listing, first) = resolve_scope-IsFirst id s r x e in
      let (range, same, ran, baseline) = apply_update-Applied id inp x _ r t u refl g in
      record {
        same_identity = same;
        target = x;
        listed = r;
        scopes = ss;
        listing = listing;
        target_listed = first;
        range = range;
        ran = ran;
        baseline = baseline;
      }

  -- A create that went through: the scope stands on the subnet that the request describes, and its
  -- identity is that subnet's.
  pub record IsCreated (inp : ScopeInput) (t : State W) (u : Scope) : Type 0 where
    pub on_subnet : scope_id inp ≡ some u.scope_id
    pub identity : u.wadapt_id ≡ b.derive_wadapt_id u.scope_id
    pub baseline : last_seen u.wadapt_id t.drift ≡ some (fingerprint_of u)

  stamp-identity :
      (a : Answer Scope) (u : Scope)
      → stamp b a ≡ ok u
      → u.wadapt_id ≡ b.derive_wadapt_id u.scope_id
  unfolding stamp identify identify_from one_of exactly_one with_identity has_id
  stamp-identity (err e) u h = ground (arith, h)
  stamp-identity (ok s) u h =
      subst (λ w. w.wadapt_id ≡ b.derive_wadapt_id w.scope_id) (ok-injective h) refl

  created-Ends :
      (id : Text) (v : Scope) (s t : State W) {u : Scope}
      → Ends (created b id v s) t u
      → (v.scope_id ≡ id) × Ends (report_drift (v ∷ []) s, ok v) t u
  unfolding created
  created-Ends id v s t {u} h = elim (Bool-cases (text_eq v.scope_id id)) [
    | inl e ↦ ((text_eq_iff v.scope_id id).0 e, matched e h)
    | inr e ↦ absurd (refused e h)
  ]
    where
      choose : Bool → State W × Answer Scope
      choose c =
          if not c
          then backend_error create_scope_script backend_malformed (report_drift (v ∷ []) s)
          else (report_drift (v ∷ []) s, ok v)

      matched :
          text_eq v.scope_id id ≡ true
          → choose (text_eq v.scope_id id) ≡ (t, ok u)
          → Ends (report_drift (v ∷ []) s, ok v) t u
      matched e g = sym (ap choose e) ∙ g

      refused : text_eq v.scope_id id ≡ false → choose (text_eq v.scope_id id) ≡ (t, ok u) → ⊥
      refused e g = backend_error-no_end _ _ (report_drift (v ∷ []) s) t (sym (ap choose e) ∙ g)

  -- what `CreateScope` answers, from the scope that the script has printed
  printed-IsCreated :
      (inp : ScopeInput) (id : Text) (v : Scope) (s t : State W) (u : Scope)
      → scope_id inp ≡ some id
      → v.wadapt_id ≡ b.derive_wadapt_id v.scope_id
      → Ends (created b id v s) t u
      → IsCreated inp t u
  unfolding report_drift
  printed-IsCreated inp id v s t u i derived h =
      let (same, e) = created-Ends id v s t h in
      let answer : v ≡ u = ok-injective (ap (λ r. r.1) e) in
      record {
        on_subnet = i ∙ ap some (sym same ∙ ap (λ w. w.scope_id) answer);
        identity = subst (λ w. w.wadapt_id ≡ b.derive_wadapt_id w.scope_id) answer derived;
        baseline =
            subst (λ w. last_seen w.wadapt_id t.drift ≡ some (fingerprint_of w)) answer
              (subst (λ l. last_seen v.wadapt_id l ≡ some (fingerprint_of v))
                (ap (λ r. r.0.drift) e) (observed-baseline v s.drift));
      }

  create_output-IsCreated :
      (inp : ScopeInput) (id out : Text) (o : Option Text) (s t : State W) (u : Scope)
      → scope_id inp ≡ some id
      → Ends (create_output b id out o s) t u
      → IsCreated inp t u
  unfolding create_output decode_one
  create_output-IsCreated inp id out (some payload) s t u i h =
      let (v, e, g) = or_fail-Ends _ _ _ s t h in absurd (err-no_end _ s t g)
  create_output-IsCreated inp id out none s t u i h =
      let (v, e, g) = or_fail-Ends _ _ _ s t h in
      printed-IsCreated inp id v s t u i (stamp-identity _ v e) g

  create_at-IsCreated :
      (inp : ScopeInput) (o : Option Text) (s t : State W) (u : Scope)
      → scope_id inp ≡ o
      → Ends (create_at b inp o s) t u
      → IsCreated inp t u
  unfolding create_at
  create_at-IsCreated inp none s t u i h = absurd (err-no_end _ s t h)
  create_at-IsCreated inp (some id) s t u i h =
      let (r, out, g) = run_script-Ends _ _ _ s t h in
      create_output-IsCreated inp id out _ r t u i g

  -- Where `CreateScope` answers with a scope, `IsCreated` holds of it.
  pub create_scope-IsCreated :
      (inp : ScopeInput) (s t : State W) (u : Scope)
      → create_scope b inp s ≡ (t, ok u)
      → IsCreated inp t u
  unfolding create_scope
  create_scope-IsCreated inp s t u h = create_at-IsCreated inp _ s t u refl h
