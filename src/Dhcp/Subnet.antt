-- ===== src/Dhcp/Subnet.antt =====
-- Addresses and masks of internal/adapters/dhcpwindows/create.go as 32-bit numbers: what the bytewise
-- functions come to.
use Prim.Native.Nat.{bit_and, bit_or}
use weave_adapters.Prelude.Masking.{bit_and-split, bit_and-mask, bit_or-sum, bit_and-complement}
use weave_adapters.Prelude.{ℕ, ◌+◌, ◌-◌, ◌*◌, ◌/◌, ◌^◌, ◌≤◌, ◌<◌, ◌≡◌, ◌∙◌, ap₂, arith}
use weave_adapters.Dhcp.Addr.{Addr, value, network_addr, broadcast_addr}
use weave_adapters.Dhcp.RoundTrip.{IsAddr}

-- The bytewise mask is the mask of the 32-bit number.
value-network_addr :
    (a m : Addr) → IsAddr a → IsAddr m → value (network_addr a m) ≡ bit_and (value a) (value m)
unfolding network_addr
value-network_addr a m h k = omega (
  arith,
  bit_and-split 8 (high a) (high m) a.b₃ m.b₃ h.byte₃ k.byte₃,
  bit_and-split 8 (a.b₀ * 2 ^ 8 + a.b₁) (m.b₀ * 2 ^ 8 + m.b₁) a.b₂ m.b₂ h.byte₂ k.byte₂,
  bit_and-split 8 a.b₀ m.b₀ a.b₁ m.b₁ h.byte₁ k.byte₁,
  parts,
)
  where
    high : Addr → ℕ
    high a = (a.b₀ * 2 ^ 8 + a.b₁) * 2 ^ 8 + a.b₂

    parts : bit_and (value a) (value m) ≡ bit_and (high a * 2 ^ 8 + a.b₃) (high m * 2 ^ 8 + m.b₃)
    parts = ap₂ bit_and (omega arith) (omega arith)

-- Under a mask of ones above `k` zeros, both of four bytes, the network address is the address with its lower `k` digits
-- cleared.
pub value-network_addr_mask :
    (a m : Addr) (k : ℕ)
    → IsAddr a
    → IsAddr m
    → k ≤ 32
    → value m + 2 ^ k ≡ 2 ^ 32
    → value (network_addr a m) ≡ value a / 2 ^ k * 2 ^ k
value-network_addr_mask a m k h i l e =
    value-network_addr a m h i
    ∙ bit_and-mask 32 k (value a) (value m) (omega (arith, h.byte₀, h.byte₁, h.byte₂, h.byte₃)) l e

-- a byte with the host bits set
pub byte_or : (a m : ℕ) → a < 256 → m < 256 → bit_or a (255 - m) ≡ bit_and a m + (255 - m)
byte_or a m h k =
    omega (arith, bit_or-sum a (255 - m), bit_and-complement 8 a m (255 - m) h (omega arith))

-- Under a mask of ones above `k` zeros, both of four bytes, the broadcast address is the address
-- with its lower `k` digits set.
pub value-broadcast_addr_mask :
    (a m : Addr) (k : ℕ)
    → IsAddr a
    → IsAddr m
    → k ≤ 32
    → value m + 2 ^ k ≡ 2 ^ 32
    → value (broadcast_addr a m) ≡ value a / 2 ^ k * 2 ^ k + (2 ^ k - 1)
unfolding broadcast_addr network_addr
value-broadcast_addr_mask a m k h i l e = omega (
  arith,
  value-network_addr_mask a m k h i l e,
  byte_or a.b₀ m.b₀ h.byte₀ i.byte₀,
  byte_or a.b₁ m.b₁ h.byte₁ i.byte₁,
  byte_or a.b₂ m.b₂ h.byte₂ i.byte₂,
  byte_or a.b₃ m.b₃ h.byte₃ i.byte₃,
  e,
  i.byte₀,
  i.byte₁,
  i.byte₂,
  i.byte₃,
)
