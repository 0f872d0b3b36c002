-- ===== src/Base/Bits.antt =====
-- The masks, shifts and exclusive ors of the source as arithmetic.
mod Step
use Prim.Native.Nat.{ℕ, zero, suc, ◌+◌, ◌-◌, ◌*◌, ◌/◌, ◌%◌, ◌^◌, ◌≤◌, ◌<◌, bit_and, bit_or, bit_xor}
use mathlib.Core.Path.{◌≡◌, refl, ap, ◌∙◌}
use mathlib.Core.Bool.{Bool, true, ◌&&◌}
use native.Mathlib.Nat.{pow-suc, one-le-pow}
use native.Mathlib.Omega.{arith}
use native.Mathlib.Decide.{dec_lt}
use websocket_engine.Base.Tests.{◌==◌, ==_iff}
use Step.{bit_and_step, bit_or_step, bit_xor_step, bit_and-zero, bit_or-zero, differ_bit}

double : (q k : ℕ) → q * 2 ^ suc k ≡ 2 * (q * 2 ^ k)
double q k = omega (arith, ap (λ (t : ℕ). q * t) (pow-suc 2 k))

mask_fields : (k q r : ℕ) → r < 2 ^ k → bit_and (q * 2 ^ k + r) (2 ^ k - 1) ≡ r
mask_fields zero q r h = rw bit_and-zero (omega arith)
mask_fields (suc k) q r h = ground (
  arith,
  bit_and_step (q * 2 ^ suc k + r) (2 ^ suc k - 1),
  double q k,
  pow-suc 2 k,
  mask_fields k q (r / 2) (omega arith),
)

-- `a & (2^k - 1)`.
pub bit_and_mask : (k a : ℕ) → bit_and a (2 ^ k - 1) ≡ a % 2 ^ k
bit_and_mask k a = ground (arith, one-le-pow k 2, mask_fields k (a / 2 ^ k) (a % 2 ^ k))

-- `(high << k) | low`, where `low` fits into `k` bits.
pub bit_or_fields : (k high low : ℕ) → low < 2 ^ k → bit_or (high * 2 ^ k) low ≡ high * 2 ^ k + low
bit_or_fields zero q r h = ground (arith, bit_or-zero q)
bit_or_fields (suc k) q r h =
    ground
      (arith, bit_or_step (q * 2 ^ suc k) r, double q k, bit_or_fields k q (r / 2) (omega arith))

xor_twice_fuel : (n a b : ℕ) → a + b ≤ n → bit_xor (bit_xor a b) b ≡ a
xor_twice_fuel zero a b h =
    let p : a ≡ 0 = omega arith in let q : b ≡ 0 = omega arith in rw (p, q) refl
xor_twice_fuel (suc n) a b h = elim (dec_lt 0 (a + b)) [
  | yes pos ↦ ground (
    arith,
    bit_xor_step a b,
    bit_xor_step (bit_xor a b) b,
    differ_bit (a % 2) (b % 2),
    xor_twice_fuel n (a / 2) (b / 2) (omega arith),
  )
  | no none_left ↦ let p : a ≡ 0 = omega arith in let q : b ≡ 0 = omega arith in rw (p, q) refl
]

-- Masking twice with one key gives the bytes back.
pub bit_xor_twice : (a b : ℕ) → bit_xor (bit_xor a b) b ≡ a
bit_xor_twice a b = xor_twice_fuel (a + b) a b (omega arith)

-- A mask whose lowest bit is 0.
even_mask : (a m : ℕ) → bit_and a (2 * m) ≡ 2 * bit_and (a / 2) m
even_mask a m = rw (bit_and_step a (2 * m), halved) (omega arith)
  where
    halved : 2 * m / 2 ≡ m
    halved = omega arith

sixteenth : (b : ℕ) → b / 2 / 2 / 2 / 2 ≡ b / 16
sixteenth b = omega arith

-- The RSV bits of a frame's first byte.
pub rsv_bits : (b : ℕ) → b < 256 → bit_and b 0x70 ≡ b / 16 % 8 * 16
rsv_bits b h =
    even_mask b 56
    ∙ ap (λ t. 2 * t) (even_mask (b / 2) 28)
    ∙ ap (λ t. 2 * (2 * t)) (even_mask (b / 2 / 2) 14)
    ∙ ap (λ t. 2 * (2 * (2 * t))) (even_mask (b / 2 / 2 / 2) 7)
    ∙ ap (λ t. 2 * (2 * (2 * (2 * t))))
        (ap (λ t. bit_and t 7) (sixteenth b) ∙ bit_and_mask 3 (b / 16))
    ∙ omega arith
