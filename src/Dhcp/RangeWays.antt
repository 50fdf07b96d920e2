-- ===== src/Dhcp/RangeWays.antt =====
-- The ways through `validateEffectiveRange` of internal/adapters/dhcpwindows/update.go.
use weave_adapters.Prelude.{◌≡◌, refl, true, false, none, some, List, [], arith}
use weave_adapters.Dhcp.Addr.{Addr, parse_ip_v4}
use weave_adapters.Dhcp.Create.{FieldError}
use weave_adapters.Dhcp.Update.{Scope, ScopeUpdate, effective, changes_range}
use weave_adapters.Dhcp.EffectiveRange.{check_effective, validate_effective_range}

-- the three ways through `validateEffectiveRange`
pub unchanged :
    (inp : ScopeUpdate) (x : Scope)
    → changes_range inp ≡ false
    → validate_effective_range inp x ≡ some []
unfolding validate_effective_range
unchanged inp x c = rw c refl

pub no_mask :
    (inp : ScopeUpdate) (x : Scope)
    → changes_range inp ≡ true
    → parse_ip_v4 x.subnet_mask ≡ none
    → validate_effective_range inp x ≡ none
unfolding validate_effective_range
no_mask inp x c n = rw (c, n) refl

pub with_mask :
    (inp : ScopeUpdate) (x : Scope) (m : Addr)
    → changes_range inp ≡ true
    → parse_ip_v4 x.subnet_mask ≡ some m
    → validate_effective_range inp x
      ≡ some (
          check_effective inp x m
            (parse_ip_v4 (effective inp.start_range x.start_range))
            (parse_ip_v4 (effective inp.end_range x.end_range)))
unfolding validate_effective_range
with_mask inp x m c n = rw (c, n) refl

pub some-injective : {xs ys : List FieldError} → some xs ≡ some ys → xs ≡ ys
some-injective h = ground (arith, h)
