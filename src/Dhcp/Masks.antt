-- ===== src/Dhcp/Masks.antt =====
-- The tests of a subnet mask in internal/adapters/dhcpwindows/create.go, as one equation.
use Prim.Native.Nat.{bit_and}
use weave_adapters.Prelude.Bits.{run_of_ones, run_of_ones-zero, pow_mono, pow_reflects}
use weave_adapters.Prelude.{ℕ, ◌+◌, ◌%◌, ◌^◌, ◌≤◌, ◌<◌, ◌≡◌, ◌↔◌, ap, true, arith}
use weave_adapters.Dhcp.Addr.{Addr, value, inverted, has_host_addresses, is_contiguous_mask}
use weave_adapters.Dhcp.RoundTrip.{IsAddr}

-- A mask that leaves at least two host bits: its ones end `k` bits above the lowest.
abbrev pub IsSubnetMask : Addr → Type 0
IsSubnetMask m = (k : ℕ) × (2 ≤ k) × (k < 32) × (value m + 2 ^ k ≡ 2 ^ 32)

value-lt : (a : Addr) → IsAddr a → value a < 2 ^ 32
value-lt a h = omega (arith, h.byte₀, h.byte₁, h.byte₂, h.byte₃)

no_wrap :
    (m : Addr)
    → 0 < value m
    → bit_and (inverted m) ((inverted m + 1) % 2 ^ 32) ≡ bit_and (inverted m) (inverted m + 1)
no_wrap m p = ap (bit_and (inverted m)) (omega arith)

contiguous-positive : (m : Addr) → is_contiguous_mask m ≡ true → 0 < value m
unfolding is_contiguous_mask
contiguous-positive m c = ground arith

contiguous-ones :
    (m : Addr) → IsAddr m → is_contiguous_mask m ≡ true → bit_and (inverted m) (inverted m + 1) ≡ 0
unfolding is_contiguous_mask
contiguous-ones m h c = ground (arith, c, no_wrap m (contiguous-positive m c))

ones_below :
    (m : Addr) (k : ℕ)
    → IsAddr m
    → is_contiguous_mask m ≡ true
    → inverted m + 1 ≡ 2 ^ k
    → 2 ^ k < 2 ^ 32
unfolding is_contiguous_mask
ones_below m k h c e = ground (arith, value-lt m h)

ones-contiguous :
    (m : Addr)
    → 0 < value m
    → bit_and (inverted m) (inverted m + 1) ≡ 0
    → is_contiguous_mask m ≡ true
unfolding is_contiguous_mask
ones-contiguous m p z = ground (arith, z, no_wrap m p)

-- The two tests hold of four bytes exactly when these are a run of ones with two or more zeros behind.
pub is_contiguous_mask_iff :
    (m : Addr)
    → IsAddr m
    → ((is_contiguous_mask m ≡ true) × (has_host_addresses m ≡ true)) ↔ IsSubnetMask m
unfolding is_contiguous_mask has_host_addresses
is_contiguous_mask_iff m h = (
  λ (c, g).
      let (k, e) = run_of_ones (inverted m) (contiguous-ones m h c) in
      let below : 2 ^ k < 2 ^ 32 = ones_below m k h c e in
      let above : 2 ^ 1 < 2 ^ k = ground (arith, g, e) in
      (k, pow_reflects 1 k above, pow_reflects k 32 below, omega (arith, e, value-lt m h)),
  λ (k, l, u, e).
      let below : 2 ^ k ≤ 2 ^ 31 = pow_mono k 31 (omega arith) in
      let above : 2 ^ 2 ≤ 2 ^ k = pow_mono 2 k l in
      (
        ones-contiguous m (omega (arith, e, below))
            (run_of_ones-zero k (inverted m) (omega (arith, e, above))),
        ground (arith, e, above),
      ),
)
