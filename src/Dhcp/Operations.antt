-- ===== src/Dhcp/Operations.antt =====
-- internal/adapters/dhcpwindows/client.go, create.go and mutate.go: the four operations of `Client`
-- over the steps of Client, each one function of the state.
use weave_adapters.Prelude.Text.{Text, text_eq}
use weave_adapters.Prelude.{not, Option, none, some, List, [], ◌∷◌, ◌++◌, if◌then◌else◌, map}
use weave_adapters.Dhcp.Create.{FieldError, ScopeInput, scope_id}
use weave_adapters.Dhcp.Env.{Env, env_scope_id, set, create_env}
use weave_adapters.Dhcp.Update.{Scope, ScopeUpdate, update_env}
use weave_adapters.Dhcp.EffectiveRange.{validate_effective_range}
use weave_adapters.Dhcp.Drift.{observe}
use weave_adapters.Dhcp.Client.{
  Err, backend_canceled, backend_malformed, scope_not_found, scope_exists, range_unusable, Script,
  list_scopes_script, create_scope_script, delete_scope_script, update_scope_script, Backend, Event,
  backend_101, dhcp_002, State, Answer, ok, err, run_error, find_scope, sort_scopes,
  conflict_payload, decode_scopes, identified, decode_one,
}

unfoldable pub emit : {W : Type 0} → Event → State W → State W
emit e s = record { world = s.world; drift = s.drift; events = s.events ++ e ∷ [] }

-- `backendError`
unfoldable pub backend_error : {W A : Type 0} → Script → Err → State W → State W × Answer A
backend_error op backend_canceled s = (s, err backend_canceled)
backend_error op e s = (emit (backend_101 op e) s, err e)

-- an answer's error through `backendError`, its value on to `k`
unfoldable pub or_fail :
    {W A B : Type 0}
    → Script
    → Answer A
    → (A → State W → State W × Answer B)
    → State W
    → State W × Answer B
or_fail op (err e) k s = backend_error op e s
or_fail op (ok a) k s = k a s

-- the ledger after a look at these scopes
unfoldable pub observed : {W : Type 0} → List Scope → State W → State W
observed ss s = record { world = s.world; drift = (observe s.drift ss).0; events = s.events }

-- `reportDrift`
unfoldable pub report_drift : {W : Type 0} → List Scope → State W → State W
report_drift ss s = record {
  world = s.world;
  drift = (observe s.drift ss).0;
  events = s.events ++ map dhcp_002 (observe s.drift ss).1;
}

module _ {W : Type 0} (b : Backend W) where
  -- the runner on one script, an error through `runError` and `backendError`
  unfoldable pub run_script :
      {A : Type 0}
      → Script
      → Env
      → (Text → State W → State W × Answer A)
      → State W
      → State W × Answer A
  run_script script env k s =
      let ran = b.runner script env s.world in
      or_fail script (run_error ran.1) k
        (record { world = ran.0; drift = s.drift; events = s.events })

  abbrev list_known : List Scope → State W → State W × Answer (List Scope)
  list_known ss s = (report_drift ss s, ok (sort_scopes ss))

  unfoldable pub list_scopes : State W → State W × Answer (List Scope)
  list_scopes =
      run_script list_scopes_script []
        (λ out. or_fail list_scopes_script (identified b (decode_scopes b out)) list_known)

  -- `resolveScope`'s errors are returned as they are
  abbrev pub or_return :
      {A B : Type 0} → State W × Answer A → (A → State W → State W × Answer B) → State W × Answer B
  or_return (s, err e) k = (s, err e)
  or_return (s, ok a) k = k a s

  unfoldable pub found : Option Scope → State W → State W × Answer Scope
  found none s = (s, err scope_not_found)
  found (some x) s = (s, ok x)

  unfoldable pub resolve_scope : Text → State W → State W × Answer Scope
  resolve_scope id s = or_return (list_scopes s) (λ ss. found (find_scope id ss))

  unfoldable pub delete_scope : Text → State W → State W × Answer Unit
  delete_scope id s =
      or_return (resolve_scope id s)
        (λ x. run_script delete_scope_script (set env_scope_id x.scope_id []) (λ out t. (t, ok tt)))

  -- behind the decoder, `UpdateScope`'s last checks and its silent look
  unfoldable pub updated : Text → Scope → State W → State W × Answer Scope
  updated id u s =
      if not (text_eq u.wadapt_id id)
      then backend_error update_scope_script backend_malformed s
      else (observed (u ∷ []) s, ok u)

  -- `UpdateScope` on the scope that it changes, and the answer of `validateEffectiveRange`
  unfoldable pub apply_update :
      Text → ScopeUpdate → Scope → Option (List FieldError) → State W → State W × Answer Scope
  apply_update id inp x none s = backend_error update_scope_script backend_malformed s
  apply_update id inp x (some (e ∷ es)) s = (s, err (range_unusable x.scope_id (e ∷ es)))
  apply_update id inp x (some []) s =
      run_script update_scope_script (update_env inp x)
        (λ out. or_fail update_scope_script (decode_one b out) (updated id)) s

  unfoldable pub update_scope : Text → ScopeUpdate → State W → State W × Answer Scope
  update_scope id inp s =
      or_return (resolve_scope id s) (λ x. apply_update id inp x (validate_effective_range inp x))

  -- `CreateScope` on a scope that the script has printed
  unfoldable pub created : Text → Scope → State W → State W × Answer Scope
  created id x s =
      if not (text_eq x.scope_id id)
      then backend_error create_scope_script backend_malformed (report_drift (x ∷ []) s)
      else (report_drift (x ∷ []) s, ok x)

  -- the conflict's payload, if any, and the whole output
  unfoldable pub create_output : Text → Text → Option Text → State W → State W × Answer Scope
  create_output id out (some payload) =
      or_fail create_scope_script (decode_one b payload) (λ x t. (t, err (scope_exists id x)))
  create_output id out none = or_fail create_scope_script (decode_one b out) (created id)

  unfoldable pub create_at : ScopeInput → Option Text → State W → State W × Answer Scope
  create_at inp none s = (s, err backend_malformed)
  create_at inp (some id) s =
      run_script create_scope_script (create_env inp id)
        (λ out. create_output id out (conflict_payload out)) s

  unfoldable pub create_scope : ScopeInput → State W → State W × Answer Scope
  create_scope inp s = create_at inp (scope_id inp) s
