-- ===== src/Dhcp/Parameters.antt =====
-- The range in the parameters that internal/adapters/dhcpwindows/update.go hands to the script, which
-- takes both ends or neither.
use weave_adapters.Prelude.Text.{Text}
use weave_adapters.Prelude.Int.{ℤ}
use weave_adapters.Prelude.{
  ◌≡◌, ◌∙◌, refl, Bool, true, false, Option, none, some, [], String, str_eq, Bool-cases, inl, inr,
}
use weave_adapters.Dhcp.Env.{
  Env, env_scope_id, env_scope_name, env_scope_start_range, env_scope_end_range,
  env_scope_description, env_scope_lease, env_scope_state, env_scope_type, lookup, set,
  set_provided, itoa,
}
use weave_adapters.Dhcp.Update.{Scope, ScopeUpdate, effective, changes_range, set_lease, update_env}

-- a name that the entry does not have
lookup-set_other :
    (k l : String) (v : Text) (env : Env)
    → str_eq l k ≡ false
    → lookup k (set l v env) ≡ lookup k env
unfolding lookup set
lookup-set_other k l v env e = rw e refl

lookup-set_provided :
    (k l : String) (v : Option Text) (env : Env)
    → str_eq l k ≡ false
    → lookup k (set_provided l v env) ≡ lookup k env
unfolding set_provided
lookup-set_provided k l none env e = refl
lookup-set_provided k l (some v) env e = lookup-set_other k l v env e

lookup-set_lease :
    (k : String) (n : Option ℤ) (env : Env)
    → str_eq env_scope_lease k ≡ false
    → lookup k (set_lease n env) ≡ lookup k env
unfolding set_lease
lookup-set_lease k none env e = refl
lookup-set_lease k (some n) env e = lookup-set_other k env_scope_lease (itoa n) env e

-- The script's parameters name both ends, the one provided or the scope's own, or neither.
abbrev pub HasRange : Env → ScopeUpdate → Scope → Bool → Type 0
HasRange env inp x true =
    (lookup env_scope_start_range env ≡ some (effective inp.start_range x.start_range))
    × (lookup env_scope_end_range env ≡ some (effective inp.end_range x.end_range))
HasRange env inp x false =
    (lookup env_scope_start_range env ≡ none) × (lookup env_scope_end_range env ≡ none)

abbrev others : ScopeUpdate → Scope → Env
others inp x = set_lease inp.lease_duration_seconds (
    set_provided env_scope_type inp.type (
      set_provided env_scope_state inp.state (
        set_provided env_scope_description inp.description
          (set_provided env_scope_name inp.name (set env_scope_id x.scope_id [])))))

others-none :
    (inp : ScopeUpdate) (x : Scope) (k : String)
    → str_eq env_scope_lease k ≡ false
    → str_eq env_scope_type k ≡ false
    → str_eq env_scope_state k ≡ false
    → str_eq env_scope_description k ≡ false
    → str_eq env_scope_name k ≡ false
    → str_eq env_scope_id k ≡ false
    → lookup k (others inp x) ≡ none
others-none inp x k a b c d e f =
    lookup-set_lease k inp.lease_duration_seconds _ a
    ∙ (lookup-set_provided k env_scope_type inp.type _ b
        ∙ (lookup-set_provided k env_scope_state inp.state _ c
            ∙ (lookup-set_provided k env_scope_description inp.description _ d
                ∙ (lookup-set_provided k env_scope_name inp.name _ e
                    ∙ (lookup-set_other k env_scope_id x.scope_id [] f ∙ unfold lookup in refl)))))

-- The script gets both ends of a range or neither.
pub update_env-HasRange :
    (inp : ScopeUpdate) (x : Scope) → HasRange (update_env inp x) inp x (changes_range inp)
unfolding update_env lookup set
update_env-HasRange inp x = elim (Bool-cases (changes_range inp)) [
  | inl c ↦ rw c (refl, refl)
  | inr c ↦ rw c (
    others-none inp x env_scope_start_range refl refl refl refl refl refl,
    others-none inp x env_scope_end_range refl refl refl refl refl refl,
  )
]
