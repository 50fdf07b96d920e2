-- ===== src/Dhcp/Env.antt =====
-- The environment that carries a script's parameters: the names of
-- internal/adapters/dhcpwindows/scope.go, and Go maps with the two operations that the code uses.
use weave_adapters.Prelude.Text.{Text, is_blank}
use weave_adapters.Prelude.Int.{ℤ, pos, negsuc, is_positive}
use weave_adapters.Prelude.{
  ℕ, suc, zero, ◌+◌, ◌/◌, ◌%◌, Option, none, some, List, [], ◌∷◌, String, str_eq, if◌then◌else◌,
  ltb,
}
use weave_adapters.Dhcp.Create.{ScopeInput}

abbrev pub Env : Type 0
Env = List (String × Text)

abbrev pub env_scope_id : String
env_scope_id = "WADAPT_SCOPE_ID"

abbrev pub env_scope_name : String
env_scope_name = "WADAPT_SCOPE_NAME"

abbrev pub env_scope_start_range : String
env_scope_start_range = "WADAPT_SCOPE_START"

abbrev pub env_scope_end_range : String
env_scope_end_range = "WADAPT_SCOPE_END"

abbrev pub env_scope_subnet_mask : String
env_scope_subnet_mask = "WADAPT_SCOPE_MASK"

abbrev pub env_scope_description : String
env_scope_description = "WADAPT_SCOPE_DESCRIPTION"

abbrev pub env_scope_lease : String
env_scope_lease = "WADAPT_SCOPE_LEASE"

abbrev pub env_scope_state : String
env_scope_state = "WADAPT_SCOPE_STATE"

abbrev pub env_scope_type : String
env_scope_type = "WADAPT_SCOPE_TYPE"

-- `env[k]`, with the test of presence
unfoldable pub lookup : String → Env → Option Text
lookup k [] = none
lookup k (e ∷ env) = if str_eq e.0 k then some e.1 else lookup k env

-- `env[k] = v`: an entry in front hides an older one
unfoldable pub set : String → Text → Env → Env
set k v env = (k, v) ∷ env

-- `strconv.Itoa`, on a number of at most `fuel` digits
abbrev pub itoa_onto : ℕ → ℕ → Text → Text
itoa_onto zero n t = t
itoa_onto (suc fuel) n t =
    let rest = itoa_onto fuel (n / 10) ((48 + n % 10) ∷ t) in
    if ltb n 10 then (48 + n) ∷ t else rest

unfoldable pub itoa : ℤ → Text
itoa (pos n) = itoa_onto 20 n []
itoa (negsuc n) = 45 ∷ itoa_onto 20 (suc n) []

-- `if v != "" { env[k] = v }`
unfoldable pub set_unless_blank : String → Text → Env → Env
set_unless_blank k v env = if is_blank v then env else set k v env

-- `if v != nil { env[k] = *v }`
unfoldable pub set_provided : String → Option Text → Env → Env
set_provided k none env = env
set_provided k (some v) env = set k v env

-- `ScopeInput.env`
unfoldable pub create_env : ScopeInput → Text → Env
create_env inp id =
    let named = set env_scope_subnet_mask inp.subnet_mask (
      set env_scope_end_range inp.end_range (
        set env_scope_start_range inp.start_range
          (set env_scope_name inp.name (set env_scope_id id [])))) in
    let described = set_unless_blank env_scope_description inp.description named in
    let stated = set_unless_blank env_scope_state inp.state described in
    let typed = set_unless_blank env_scope_type inp.type stated in
    if is_positive inp.lease_duration_seconds
    then set env_scope_lease (itoa inp.lease_duration_seconds) typed
    else typed
