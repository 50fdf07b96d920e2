-- ===== src/Dhcp/HostRange.antt =====
-- A leasable range of internal/adapters/dhcpwindows/create.go, by the digits of its two ends.
use native.Mathlib.Nat.{mod-eq-sub-div-mul, div-mul-le_self, mod-lt, mul-div_cancel}
use weave_adapters.Prelude.Bits.{pow_mono}
use weave_adapters.Prelude.Masking.{bit_and-le_right}
use weave_adapters.Prelude.{
  ℕ, ◌+◌, ◌-◌, ◌*◌, ◌/◌, ◌%◌, ◌^◌, ◌≤◌, ◌<◌, ◌≡◌, ◌≢◌, ◌↔◌, ◌∙◌, sym, ap, arith,
}
use weave_adapters.Dhcp.Addr.{Addr, value, network_addr, broadcast_addr}
use weave_adapters.Dhcp.RoundTrip.{IsAddr}
use weave_adapters.Dhcp.Subnet.{byte_or, value-network_addr_mask, value-broadcast_addr_mask}
use weave_adapters.Dhcp.Ranges.{IsLeasable, network_addr-IsAddr}

value-injective : (a b : Addr) → IsAddr a → IsAddr b → value a ≡ value b → a ≡ b
value-injective a b h k e = λ i. record { b₀ = p₀ i; b₁ = p₁ i; b₂ = p₂ i; b₃ = p₃ i }
  where
    p₀ : a.b₀ ≡ b.b₀
    p₀ = omega (arith, h.byte₀, h.byte₁, h.byte₂, h.byte₃, k.byte₀, k.byte₁, k.byte₂, k.byte₃)

    p₁ : a.b₁ ≡ b.b₁
    p₁ = omega (arith, h.byte₀, h.byte₁, h.byte₂, h.byte₃, k.byte₀, k.byte₁, k.byte₂, k.byte₃)

    p₂ : a.b₂ ≡ b.b₂
    p₂ = omega (arith, h.byte₀, h.byte₁, h.byte₂, h.byte₃, k.byte₀, k.byte₁, k.byte₂, k.byte₃)

    p₃ : a.b₃ ≡ b.b₃
    p₃ = omega (arith, h.byte₀, h.byte₁, h.byte₂, h.byte₃, k.byte₀, k.byte₁, k.byte₂, k.byte₃)

broadcast_addr-IsAddr : (a m : Addr) → IsAddr a → IsAddr m → IsAddr (broadcast_addr a m)
unfolding broadcast_addr
broadcast_addr-IsAddr a m h k = record {
  byte₀ = omega (arith, byte_or a.b₀ m.b₀ h.byte₀ k.byte₀, bit_and-le_right a.b₀ m.b₀, k.byte₀);
  byte₁ = omega (arith, byte_or a.b₁ m.b₁ h.byte₁ k.byte₁, bit_and-le_right a.b₁ m.b₁, k.byte₁);
  byte₂ = omega (arith, byte_or a.b₂ m.b₂ h.byte₂ k.byte₂, bit_and-le_right a.b₂ m.b₂, k.byte₂);
  byte₃ = omega (arith, byte_or a.b₃ m.b₃ h.byte₃ k.byte₃, bit_and-le_right a.b₃ m.b₃, k.byte₃);
}

-- Two 32-bit addresses in order, alike above their lowest `k` digits; those of the first are not all
-- zeros and those of the second not all ones.
pub record IsHostRange (k start end_ : ℕ) : Type 0 where
  pub in_order : start ≤ end_
  pub same_subnet : start / 2 ^ k ≡ end_ / 2 ^ k
  pub not_first : 0 < start % 2 ^ k
  pub not_last : end_ % 2 ^ k + 1 < 2 ^ k

-- a number by its parts above and below `p`
parts : (n p : ℕ) → 0 < p → n ≡ n / p * p + n % p
parts n p h = omega (arith, mod-eq-sub-div-mul n p, div-mul-le_self n p)

pow_pos : (k : ℕ) → 0 < 2 ^ k
pow_pos k = pow_mono 0 k (omega arith)

times-injective : (x y p : ℕ) → 0 < p → x * p ≡ y * p → x ≡ y
times-injective x y p h e = sym (mul-div_cancel x h) ∙ (ap (λ z. z / p) e ∙ mul-div_cancel y h)

positive : (n : ℕ) → n ≢ 0 → 0 < n
positive n h = ground arith

below : (n p : ℕ) → n < p → n + 1 ≢ p → n + 1 < p
below n p h k = ground arith

pub IsLeasable-IsHostRange :
    (s e m : Addr) (k : ℕ)
    → IsAddr s
    → IsAddr e
    → IsAddr m
    → k ≤ 32
    → value m + 2 ^ k ≡ 2 ^ 32
    → IsLeasable s e m ↔ IsHostRange k (value s) (value e)
IsLeasable-IsHostRange s e m k h i j l q = (
  λ r. record {
    in_order = r.in_order;
    same_subnet =
        times-injective (value s / 2 ^ k) (value e / 2 ^ k) (2 ^ k) (pow_pos k)
          (sym (net s h) ∙ (ap value r.same_network ∙ net e i));
    not_first = positive (value s % 2 ^ k) (λ z. r.not_network (
        value-injective s (network_addr s m) h (network_addr-IsAddr s m h)
          (omega (arith, net s h, parts (value s) (2 ^ k) (pow_pos k), z))));
    not_last = below (value e % 2 ^ k) (2 ^ k) (mod-lt (value e) (pow_pos k)) (λ z.
        r.not_broadcast (
          value-injective e (broadcast_addr e m) i (broadcast_addr-IsAddr e m i j)
            (omega (arith, last, parts (value e) (2 ^ k) (pow_pos k), z))));
  },
  λ r. record {
    in_order = r.in_order;
    same_network =
        value-injective (network_addr s m) (network_addr e m) (network_addr-IsAddr s m h)
          (network_addr-IsAddr e m i)
          (net s h ∙ (ap (λ x. x * 2 ^ k) r.same_subnet ∙ sym (net e i)));
    not_network =
        λ g. omega (arith, ap value g, net s h, parts (value s) (2 ^ k) (pow_pos k), r.not_first);
    not_broadcast =
        λ g. omega (arith, ap value g, last, parts (value e) (2 ^ k) (pow_pos k), r.not_last);
  },
)
  where
    net : (a : Addr) → IsAddr a → value (network_addr a m) ≡ value a / 2 ^ k * 2 ^ k
    net a h = value-network_addr_mask a m k h j l q

    last : value (broadcast_addr e m) ≡ value e / 2 ^ k * 2 ^ k + (2 ^ k - 1)
    last = value-broadcast_addr_mask e m k i j l q
