-- ===== src/Dhcp/Ranges.antt =====
-- A range under a mask: what the checks of internal/adapters/dhcpwindows/create.go let through.
use weave_adapters.Prelude.Text.{text_eq_iff}
use weave_adapters.Prelude.Bits.{bit_and-le}
use weave_adapters.Prelude.{◌≤◌, ◌≡◌, ◌≢◌, ◌↔◌, ap, true, some, List, [], ◌∷◌, ◌++◌, arith}
use weave_adapters.Dhcp.Addr.{
  Addr, value, network_of, network_addr, broadcast_addr, addr_eq, addr_string,
}
use weave_adapters.Dhcp.RoundTrip.{IsAddr, addr_string-injective}
use weave_adapters.Dhcp.Create.{
  check_start, check_end, check_leasable_ends, check_order, check_same_subnet, check_subnet,
}

pub append-none {ℓ} : {A : Type ℓ} (xs ys : List A) → (xs ++ ys ≡ []) ↔ ((xs ≡ []) × (ys ≡ []))
append-none [] ys = ground arith
append-none (x ∷ xs) ys = ground arith

pub append-none_iff {ℓ κ μ} :
    {A : Type ℓ} {P : Type κ} {Q : Type μ} {xs ys : List A}
    → (xs ≡ []) ↔ P
    → (ys ≡ []) ↔ Q
    → (xs ++ ys ≡ []) ↔ (P × Q)
append-none_iff {xs = xs} {ys = ys} f g = (
  λ h. let (x, y) = (append-none xs ys).0 h in (f.0 x, g.0 y),
  λ (p, q). (append-none xs ys).1 (f.1 p, g.1 q),
)

-- `network_addr` as an address
pub network_addr-IsAddr : (a m : Addr) → IsAddr a → IsAddr (network_addr a m)
unfolding network_addr
network_addr-IsAddr a m h = record {
  byte₀ = omega (arith, bit_and-le a.b₀ m.b₀, h.byte₀);
  byte₁ = omega (arith, bit_and-le a.b₁ m.b₁, h.byte₁);
  byte₂ = omega (arith, bit_and-le a.b₂ m.b₂, h.byte₂);
  byte₃ = omega (arith, bit_and-le a.b₃ m.b₃, h.byte₃);
}

pub addr_eq_iff : (a b : Addr) → (addr_eq a b ≡ true) ↔ (a ≡ b)
unfolding addr_eq
addr_eq_iff a b = ground arith

-- A range that Windows can lease from: both ends in one subnet and neither its first or last address.
pub record IsLeasable (start end_ mask : Addr) : Type 0 where
  pub in_order : value start ≤ value end_
  pub same_network : network_addr start mask ≡ network_addr end_ mask
  pub not_network : start ≢ network_addr start mask
  pub not_broadcast : end_ ≢ broadcast_addr end_ mask

check_order_iff : (s e : Addr) → (check_order s e ≡ []) ↔ (value s ≤ value e)
unfolding check_order
check_order_iff s e = ground arith

pub check_start_iff : (s m : Addr) → (check_start s m ≡ []) ↔ (s ≢ network_addr s m)
unfolding check_start
check_start_iff s m = ground (arith, addr_eq_iff s (network_addr s m))

pub check_end_iff : (s m : Addr) → (check_end s m ≡ []) ↔ (s ≢ broadcast_addr s m)
unfolding check_end
check_end_iff s m = ground (arith, addr_eq_iff s (broadcast_addr s m))

pub network_of_iff :
    (s e m : Addr)
    → IsAddr s
    → IsAddr e
    → (network_of s m ≡ network_of e m) ↔ (network_addr s m ≡ network_addr e m)
unfolding network_of
network_of_iff s e m h k = (
  addr_string-injective (network_addr s m) (network_addr e m) (network_addr-IsAddr s m h)
      (network_addr-IsAddr e m k),
  λ q. ap addr_string q,
)

check_same_subnet_iff :
    (s e m : Addr)
    → IsAddr s
    → IsAddr e
    → (check_same_subnet s e m ≡ []) ↔ (network_addr s m ≡ network_addr e m)
unfolding check_same_subnet
check_same_subnet_iff s e m h k =
    ground (arith, text_eq_iff (network_of s m) (network_of e m), network_of_iff s e m h k)

pub check_subnet_iff :
    (s e m : Addr)
    → IsAddr s
    → IsAddr e
    → ((check_order s e ≡ []) × (check_subnet s e (some m) ≡ [])) ↔ IsLeasable s e m
unfolding check_subnet check_leasable_ends
check_subnet_iff s e m h k = (
  λ (o, c).
      let (a, b) = (append-none _ _).0 c in
      let (f, g) = (append-none _ _).0 b in
      record {
        in_order = (check_order_iff s e).0 o;
        same_network = (check_same_subnet_iff s e m h k).0 a;
        not_network = (check_start_iff s m).0 f;
        not_broadcast = (check_end_iff e m).0 g;
      },
  λ r. (
    (check_order_iff s e).1 r.in_order,
    (append-none _ _).1 (
      (check_same_subnet_iff s e m h k).1 r.same_network,
      (append-none _ _).1
          ((check_start_iff s m).1 r.not_network, (check_end_iff e m).1 r.not_broadcast),
    ),
  ),
)
