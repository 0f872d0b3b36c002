-- ===== src/Base/Bits/Step.antt =====
-- One equation for the lowest binary digit of each native bit operation.
use Prim.Native.Nat.{
  ℕ, zero, suc, ◌+◌, ◌*◌, ◌/◌, ◌%◌, ◌≤◌, ◌<◌, min, max, digits, bitwise, differ, bit_and, bit_or,
  bit_xor, bit_and-bitwise, bit_or-bitwise, bit_xor-bitwise,
}
use mathlib.Core.Path.{◌≡◌, refl}
use native.Mathlib.Omega.{arith}

-- `op` works digit by digit, by `f`.
abbrev pub ByDigit : (ℕ → ℕ → ℕ) → (ℕ → ℕ → ℕ) → Type 0
ByDigit op f = (a b : ℕ) → op a b ≡ op (a / 2) (b / 2) * 2 + f (a % 2) (b % 2)

module _ (z : ℕ → ℕ) (f : ℕ → ℕ → ℕ) where
  -- Any two amounts of fuel that are enough give the same.
  spare :
      (fuel other b a : ℕ) → (a ≤ other) × (a ≤ fuel) → digits z f other a b ≡ digits z f fuel a b
  spare (suc fuel) (suc other) b (suc a) h =
      rw (spare fuel other (b / 2) (suc a / 2) (omega arith, omega arith))
  spare (suc fuel) (suc other) b zero h = refl
  spare (suc fuel) zero b zero h = refl
  spare zero (suc other) b zero h = refl
  spare zero zero b zero h = refl
  spare (suc fuel) zero b (suc a) h = absurd (omega (arith, h.0))
  spare zero other b (suc a) h = absurd (omega (arith, h.1))

  bitwise-ByDigit :
      (op : ℕ → ℕ → ℕ)
      → ((a b : ℕ) → op a b ≡ bitwise z f a b)
      → ((b : ℕ) → z b ≡ z (b / 2) * 2 + f 0 (b % 2))
      → ByDigit op f
  bitwise-ByDigit op means base zero b = omega (arith, means 0 b, means 0 (b / 2), base b)
  bitwise-ByDigit op means base (suc a) b = omega (
    arith,
    means (suc a / 2) (b / 2),
    spare a (suc a / 2) (b / 2) (suc a / 2) (omega arith, omega arith),
    means (suc a) b,
  )

pub bit_and_step : ByDigit bit_and min
bit_and_step = bitwise-ByDigit (λ y. 0) min bit_and bit_and-bitwise (λ b. omega arith)

pub bit_or_step : ByDigit bit_or max
bit_or_step = bitwise-ByDigit (λ y. y) max bit_or bit_or-bitwise (λ b. omega arith)

pub bit_xor_step : ByDigit bit_xor differ
bit_xor_step = bitwise-ByDigit (λ y. y) differ bit_xor bit_xor-bitwise λ b. omega arith

-- What holds of 0, and of a number when it holds of its half, holds of all numbers.
by_halves : (P : ℕ → Type 0) → P 0 → ((a : ℕ) → P (a / 2) → P a) → (a : ℕ) → P a
by_halves P base half a = go a a (omega arith)
  where
    go : (bound a : ℕ) → a ≤ bound → P a
    go bound zero h = base
    go (suc bound) (suc a) h = half (suc a) (go bound (suc a / 2) (omega arith))
    go zero (suc a) h = absurd (omega (arith, h))

pub bit_and-zero : (a : ℕ) → bit_and a 0 ≡ 0
bit_and-zero = by_halves (λ a. bit_and a 0 ≡ 0) refl (λ a h. omega (arith, bit_and_step a 0, h))

pub bit_or-zero : (a : ℕ) → bit_or a 0 ≡ a
bit_or-zero = by_halves (λ a. bit_or a 0 ≡ a) refl (λ a h. omega (arith, bit_or_step a 0, h))

pub differ_bit : (x y : ℕ) → x < 2 → y < 2 → (differ x y < 2) × (differ (differ x y) y ≡ x)
differ_bit zero zero h g = (omega arith, refl)
differ_bit zero (suc zero) h g = (omega arith, refl)
differ_bit (suc zero) zero h g = (omega arith, refl)
differ_bit (suc zero) (suc zero) h g = (omega arith, refl)
differ_bit x (suc (suc y)) h g = absurd (omega arith)
differ_bit (suc (suc x)) y h g = absurd (omega arith)
