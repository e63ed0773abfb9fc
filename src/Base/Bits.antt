-- ===== src/Base/Bits.antt =====
-- The bit operations of Rust at variables: what a zero result says, and the tests on one byte.
mod Step
mod Shift
pub use Step.{bit_or_step, bit_xor_step, bit_and_step}
pub use Shift.{bit_xor-lt, xor_shift_injective, xor_shift-lt}
use Step.{zero-bit_or, zero-bit_xor}
use Prim.Native.Nat.{ℕ, zero, suc, ◌+◌, ◌*◌, ◌/◌, ◌%◌, ◌^◌, ◌≤◌, ◌<◌, bit_and, bit_or, bit_xor, max}
use mathlib.Core.Path.{◌≡◌, refl, ap, sym, ◌∙◌}
use mathlib.Core.Logic.{◌↔◌}
use mathlib.Core.Bool.{Bool, true, false, ◌&&◌}
use native.Mathlib.Omega.{arith}
use native.Mathlib.Nat.{mul_assoc, pow-suc}
use pktauth.Base.Tests.{◌==◌, ==_iff}

bit_or-zero_fuel : (n a b : ℕ) → a ≤ n → bit_or a b ≡ 0 → (a ≡ 0) × (b ≡ 0)
bit_or-zero_fuel n zero b h e = omega (arith, zero-bit_or b)
bit_or-zero_fuel zero (suc a) b h e = absurd (omega arith)
bit_or-zero_fuel (suc n) (suc a) b h e =
    let halves : (suc a / 2 ≡ 0) × (b / 2 ≡ 0) =
      bit_or-zero_fuel n (suc a / 2) (b / 2) (omega arith) (omega (arith, bit_or_step (suc a) b)) in
    omega (arith, halves, bit_or_step (suc a) b)

-- An or is zero exactly when both sides are.
pub bit_or-eq-zero_iff : (a b : ℕ) → (bit_or a b ≡ 0) ↔ ((a ≡ 0) × (b ≡ 0))
bit_or-eq-zero_iff a b = (bit_or-zero_fuel a a b (omega arith), λ h. rw (h.0, h.1) refl)

bit_xor-zero_fuel : (n a b : ℕ) → a ≤ n → bit_xor a b ≡ 0 → a ≡ b
bit_xor-zero_fuel n zero b h e = omega (arith, zero-bit_xor b)
bit_xor-zero_fuel zero (suc a) b h e = absurd (omega arith)
bit_xor-zero_fuel (suc n) (suc a) b h e =
    let halves : suc a / 2 ≡ b / 2 =
      bit_xor-zero_fuel n (suc a / 2) (b / 2) (omega arith)
        (omega (arith, bit_xor_step (suc a) b)) in
    omega (arith, halves, bit_xor_step (suc a) b)

bit_xor-self_fuel : (n a : ℕ) → a ≤ n → bit_xor a a ≡ 0
bit_xor-self_fuel n zero h = refl
bit_xor-self_fuel zero (suc a) h = absurd (omega arith)
bit_xor-self_fuel (suc n) (suc a) h =
    omega (arith, bit_xor_step (suc a) (suc a), bit_xor-self_fuel n (suc a / 2) (omega arith))

-- An exclusive or is zero exactly when the sides are equal.
pub bit_xor-eq-zero_iff : (a b : ℕ) → (bit_xor a b ≡ 0) ↔ (a ≡ b)
bit_xor-eq-zero_iff a b =
    (bit_xor-zero_fuel a a b (omega arith), λ h. rw h (bit_xor-self_fuel b b (omega arith)))

-- A mask with no lowest digit.
even_mask : (x m : ℕ) → bit_and x (m * 2) ≡ bit_and (x / 2) m * 2
even_mask x m =
    let half : m * 2 / 2 ≡ m = omega arith in
    let even : m * 2 % 2 ≡ 0 = omega arith in
    let step = bit_and_step x (m * 2) in omega (arith, step, even, ap (bit_and (x / 2)) half)

zero_mask : (n x : ℕ) → x ≤ n → bit_and x 0 ≡ 0
zero_mask n zero h = refl
zero_mask zero (suc x) h = absurd (omega arith)
zero_mask (suc n) (suc x) h =
    omega (arith, bit_and_step (suc x) 0, zero_mask n (suc x / 2) (omega arith))

lowest_mask : (x : ℕ) → bit_and x 1 ≡ x % 2
lowest_mask x = omega (arith, bit_and_step x 1, zero_mask (x / 2) (x / 2) (omega arith))

-- A nibble shifted out of a mask.
four_halves : (x m : ℕ) → bit_and x (m * 16) ≡ bit_and (x / 16) m * 16
four_halves x m =
    let quarter : x / 2 / 2 / 2 / 2 ≡ x / 16 = omega arith in
    let shifted : m * 16 ≡ m * 2 * 2 * 2 * 2 = omega arith in
    omega (
      arith,
      ap (bit_and x) shifted,
      even_mask x (m * 2 * 2 * 2),
      even_mask (x / 2) (m * 2 * 2),
      even_mask (x / 2 / 2) (m * 2),
      even_mask (x / 2 / 2 / 2) m,
      ap (λ y. bit_and y m) quarter,
    )

-- The top bit of a byte.
pub bit_and_top : (b : ℕ) → b < 256 → bit_and b 0x80 ≡ b / 128 * 128
bit_and_top b h = omega (
  arith,
  four_halves b 8,
  even_mask (b / 16) 4,
  even_mask (b / 16 / 2) 2,
  even_mask (b / 16 / 2 / 2) 1,
  lowest_mask (b / 16 / 2 / 2 / 2),
)

bit_or_double : (q b : ℕ) → bit_or (q * 2) b ≡ bit_or q (b / 2) * 2 + b % 2
bit_or_double q b =
    let half : q * 2 / 2 ≡ q = omega arith in
    let even : q * 2 % 2 ≡ 0 = omega arith in
    omega (arith, bit_or_step (q * 2) b, even, ap (λ t. bit_or t (b / 2)) half)

bit_or-zero : (n a : ℕ) → a ≤ n → bit_or a 0 ≡ a
bit_or-zero n zero h = refl
bit_or-zero zero (suc a) h = absurd (omega arith)
bit_or-zero (suc n) (suc a) h =
    omega (arith, bit_or_step (suc a) 0, bit_or-zero n (suc a / 2) (omega arith))

-- An or of a multiple of a power of two with a number below the power adds the two.
pub bit_or-disjoint : (k a b : ℕ) → b < 2 ^ k → bit_or (a * 2 ^ k) b ≡ a * 2 ^ k + b
bit_or-disjoint zero a b h =
    let none_left : b ≡ 0 = omega arith in
    let same : a * 2 ^ 0 ≡ a = omega arith in
    rw (none_left, same) (omega (arith, bit_or-zero a a (omega arith)))
bit_or-disjoint (suc k) a b h =
    let double : a * 2 ^ suc k ≡ a * 2 ^ k * 2 =
      ap (λ t. a * t) (pow-suc 2 k) ∙ sym (mul_assoc a (2 ^ k) 2) in
    let below : b / 2 < 2 ^ k = omega arith in
    omega (
      arith,
      double,
      ap (λ t. bit_or t b) double,
      bit_or_double (a * 2 ^ k) b,
      bit_or-disjoint k a (b / 2) below,
    )
