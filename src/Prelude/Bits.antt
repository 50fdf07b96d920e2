-- ===== src/Prelude/Bits.antt =====
-- Laws of `bit_and` at variables, from the digits that the native operation stands for.
use Prim.Native.Nat.{
  ℕ, zero, suc, ◌+◌, ◌*◌, ◌/◌, ◌%◌, ◌^◌, ◌≤◌, ◌<◌, min, bit_and, digits, bit_and-bitwise,
}
use mathlib.Core.Path.{◌≡◌, refl, ap, ◌∙◌}
use mathlib.Core.Logic.{◌⊎◌, inl, inr}
use native.Mathlib.Nat.{pow-le-pow_right}
use native.Mathlib.Omega.{arith}

-- the recursion on a count of digits, of which half the first number is enough
enough : (m n a b : ℕ) → a ≤ m → a ≤ n → digits (λ _. 0) min m a b ≡ digits (λ _. 0) min n a b
enough zero zero a b h k = refl
enough zero (suc n) zero b h k = refl
enough zero (suc n) (suc a) b h k = absurd (omega arith)
enough (suc m) zero zero b h k = refl
enough (suc m) zero (suc a) b h k = absurd (omega arith)
enough (suc m) (suc n) zero b h k = refl
enough (suc m) (suc n) (suc a) b h k =
    omega (arith, enough m n (suc a / 2) (b / 2) (omega arith) (omega arith))

bit_and-zero_left : (b : ℕ) → bit_and 0 b ≡ 0
bit_and-zero_left b = bit_and-bitwise 0 b

-- `bit_and` of two numbers, by their halves and their lowest bits
pub bit_and_halves : (a b : ℕ) → bit_and a b ≡ 2 * bit_and (a / 2) (b / 2) + min (a % 2) (b % 2)
bit_and_halves zero b = omega (arith, bit_and-zero_left b, bit_and-zero_left (b / 2))
bit_and_halves (suc a) b = omega (
  arith,
  bit_and-bitwise (suc a) b,
  bit_and-bitwise (suc a / 2) (b / 2),
  enough a (suc a / 2) (suc a / 2) (b / 2) (omega arith) (omega arith),
)

bit_and_self_below : (n x : ℕ) → x ≤ n → bit_and x x ≡ x
bit_and_self_below n zero h = bit_and-zero_left 0
bit_and_self_below zero (suc x) h = absurd (omega arith)
bit_and_self_below (suc n) (suc x) h =
    omega (arith, bit_and_halves (suc x) (suc x), bit_and_self_below n (suc x / 2) (omega arith))

pub bit_and_self : (x : ℕ) → bit_and x x ≡ x
bit_and_self x = bit_and_self_below x x (omega arith)

bit_and-le_below : (n a b : ℕ) → a ≤ n → bit_and a b ≤ a
bit_and-le_below n zero b h = omega (arith, bit_and-zero_left b)
bit_and-le_below zero (suc a) b h = absurd (omega arith)
bit_and-le_below (suc n) (suc a) b h =
    omega (arith, bit_and_halves (suc a) b, bit_and-le_below n (suc a / 2) (b / 2) (omega arith))

-- A mask takes bits away.
pub bit_and-le : (a b : ℕ) → bit_and a b ≤ a
bit_and-le a b = bit_and-le_below a a b (omega arith)

-- `x & (x + 1)` is 0 for a run of ones only.
run_of_ones_even : (x : ℕ) → x % 2 ≡ 0 → bit_and x (x + 1) ≡ x
run_of_ones_even x e = omega (arith, bit_and_halves x (x + 1), bit_and_self (x / 2), halves)
  where
    halves : bit_and (x / 2) ((x + 1) / 2) ≡ bit_and (x / 2) (x / 2)
    halves = ap (bit_and (x / 2)) (omega arith)

run_of_ones_odd : (x : ℕ) → x % 2 ≡ 1 → bit_and x (x + 1) ≡ 2 * bit_and (x / 2) (x / 2 + 1)
run_of_ones_odd x e = omega (arith, bit_and_halves x (x + 1), halves)
  where
    halves : bit_and (x / 2) ((x + 1) / 2) ≡ bit_and (x / 2) (x / 2 + 1)
    halves = ap (bit_and (x / 2)) (omega arith)

pow_suc : (k : ℕ) → 2 ^ suc k ≡ 2 * 2 ^ k
pow_suc k = omega arith

run_of_ones_below : (n x : ℕ) → x ≤ n → bit_and x (x + 1) ≡ 0 → (k : ℕ) × (x + 1 ≡ 2 ^ k)
run_of_ones_below n zero h e = (0, refl)
run_of_ones_below zero (suc x) h e = absurd (omega arith)
run_of_ones_below (suc n) (suc x) h e = elim (parity (suc x)) [
  | inl p ↦ absurd (omega (arith, run_of_ones_even (suc x) p))
  | inr p ↦
      let (k, g) =
        run_of_ones_below n (suc x / 2) (omega arith) (omega (arith, run_of_ones_odd (suc x) p)) in
      (suc k, omega (arith, g, pow_suc k))
]
  where
    parity : (x : ℕ) → (x % 2 ≡ 0) ⊎ (x % 2 ≡ 1)
    parity x = ground arith

pub run_of_ones : (x : ℕ) → bit_and x (x + 1) ≡ 0 → (k : ℕ) × (x + 1 ≡ 2 ^ k)
run_of_ones x e = run_of_ones_below x x (omega arith) e

-- and is 0 for each of them
pub run_of_ones-zero : (k x : ℕ) → x + 1 ≡ 2 ^ k → bit_and x (x + 1) ≡ 0
run_of_ones-zero zero x e = ap (λ y. bit_and y (y + 1)) {y = 0} (omega arith) ∙ bit_and-zero_left 1
run_of_ones-zero (suc k) x e = omega (
  arith,
  run_of_ones_odd x (omega (arith, pow_suc k, e)),
  run_of_ones-zero k (x / 2) (omega (arith, pow_suc k, e)),
)

pub pow_mono : (i j : ℕ) → i ≤ j → 2 ^ i ≤ 2 ^ j
pow_mono i j h = pow-le-pow_right (omega arith) h

-- A power of two below another has a lower exponent.
pub pow_reflects : (i j : ℕ) → 2 ^ i < 2 ^ j → i < j
pow_reflects i j h = elim (order i j) [
  | inl l ↦ l
  | inr g ↦ absurd (omega (arith, h, pow_mono j i g))
]
  where
    order : (i j : ℕ) → (i < j) ⊎ (j ≤ i)
    order i j = ground arith
