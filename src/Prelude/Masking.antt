-- ===== src/Prelude/Masking.antt =====
-- `bit_and` with a mask that is a run of ones above a run of zeros.
use Prim.Native.Nat.{
  ℕ, zero, suc, ◌+◌, ◌*◌, ◌/◌, ◌^◌, ◌≤◌, ◌<◌, min, max, bit_and, bit_or, digits, bit_and-bitwise,
  bit_or-bitwise,
}
use mathlib.Core.Path.{◌≡◌, sym, ap, ap₂, ◌∙◌}
use native.Mathlib.Nat.{div-div-eq-div-mul}
use native.Mathlib.Omega.{arith}
use weave_adapters.Prelude.Bits.{bit_and_halves, bit_and-le}

pow_suc : (k : ℕ) → 2 ^ suc k ≡ 2 * 2 ^ k
pow_suc k = omega arith

double : (a k : ℕ) → a * 2 ^ suc k ≡ 2 * (a * 2 ^ k)
double a k = grind arith

-- digits in two parts, the lower of `w` digits
pub bit_and-split :
    (w a b x y : ℕ)
    → x < 2 ^ w
    → y < 2 ^ w
    → bit_and (a * 2 ^ w + x) (b * 2 ^ w + y) ≡ bit_and a b * 2 ^ w + bit_and x y
bit_and-split zero a b x y h k =
    ap₂ bit_and {y = a} {v = b} (omega arith) (omega arith) ∙ omega (arith, bit_and-le x y)
bit_and-split (suc w) a b x y h k = omega (
  arith,
  bit_and_halves (a * 2 ^ suc w + x) (b * 2 ^ suc w + y),
  halves,
  bit_and-split w a b (x / 2) (y / 2) (omega (arith, pow_suc w)) (omega (arith, pow_suc w)),
  bit_and_halves x y,
  double a w,
  double b w,
  double (bit_and a b) w,
)
  where
    halves :
        bit_and ((a * 2 ^ suc w + x) / 2) ((b * 2 ^ suc w + y) / 2)
        ≡ bit_and (a * 2 ^ w + x / 2) (b * 2 ^ w + y / 2)
    halves = ap₂ bit_and (omega (arith, double a w)) (omega (arith, double b w))

-- the mask of the digits from `k` on takes the lower `k` digits away
pub bit_and-mask :
    (n k a m : ℕ) → a < 2 ^ n → k ≤ n → m + 2 ^ k ≡ 2 ^ n → bit_and a m ≡ a / 2 ^ k * 2 ^ k
bit_and-mask zero zero a m h l e = omega (arith, bit_and-le a m)
bit_and-mask zero (suc k) a m h l e = elim l [ ]
bit_and-mask (suc n) zero a m h l e = omega (
  arith,
  bit_and_halves a m,
  bit_and-mask n zero (a / 2) (m / 2) (omega (arith, pow_suc n)) (omega arith)
      (omega (arith, e, pow_suc n)),
)
bit_and-mask (suc n) (suc k) a m h l e = omega (
  arith,
  bit_and_halves a m,
  bit_and-mask n k (a / 2) (m / 2) (omega (arith, pow_suc n)) (omega arith)
      (omega (arith, e, pow_suc n, pow_suc k)),
  pow_suc n,
  pow_suc k,
  double (a / 2 / 2 ^ k) k,
  ap (λ q. q * 2 ^ suc k) quotient,
)
  where
    quotient : a / 2 ^ suc k ≡ a / 2 / 2 ^ k
    quotient = ap (λ d. a / d) (pow_suc k) ∙ sym (div-div-eq-div-mul a 2 (2 ^ k))

digits-sum : (n a b : ℕ) → a ≤ n → digits (λ b. b) max n a b + digits (λ _. 0) min n a b ≡ a + b
digits-sum zero zero b h = omega arith
digits-sum zero (suc a) b h = absurd (omega arith)
digits-sum (suc n) zero b h = omega arith
digits-sum (suc n) (suc a) b h = omega (arith, digits-sum n (suc a / 2) (b / 2) (omega arith))

-- The digits of either are those of both and of one.
pub bit_or-sum : (a b : ℕ) → bit_or a b + bit_and a b ≡ a + b
bit_or-sum a b =
    omega (arith, bit_or-bitwise a b, bit_and-bitwise a b, digits-sum a a b (omega arith))

-- A number is what a mask keeps and what its complement keeps.
pub bit_and-complement :
    (w a m c : ℕ) → a < 2 ^ w → m + c + 1 ≡ 2 ^ w → bit_and a m + bit_and a c ≡ a
bit_and-complement zero a m c h e = omega (arith, bit_and-le a m, bit_and-le a c)
bit_and-complement (suc w) a m c h e = omega (
  arith,
  bit_and_halves a m,
  bit_and_halves a c,
  bit_and-complement w (a / 2) (m / 2) (c / 2) (omega (arith, pow_suc w))
      (omega (arith, e, pow_suc w)),
  pow_suc w,
  e,
)

bit_and-le_right_below : (n a b : ℕ) → a ≤ n → bit_and a b ≤ b
bit_and-le_right_below n zero b h = omega (arith, bit_and-le zero b)
bit_and-le_right_below zero (suc a) b h = absurd (omega arith)
bit_and-le_right_below (suc n) (suc a) b h =
    omega
      (arith, bit_and_halves (suc a) b, bit_and-le_right_below n (suc a / 2) (b / 2) (omega arith))

pub bit_and-le_right : (a b : ℕ) → bit_and a b ≤ b
bit_and-le_right a b = bit_and-le_right_below a a b (omega arith)
