-- ===== src/Base/Bits/Shift.antt =====
-- `x ^ (x >> s)` on numbers, for a shift of at least one: it stays in its width and is injective.
use Prim.Native.Nat.{ℕ, zero, suc, ◌+◌, ◌*◌, ◌/◌, ◌%◌, ◌^◌, ◌≤◌, ◌<◌, bit_xor}
use mathlib.Core.Path.{◌≡◌, ap, sym, ◌∙◌}
use native.Mathlib.Omega.{arith}
use native.Mathlib.Nat.{div-div-eq-div-mul, mul_comm, pow-suc, div-le_self}
use pktauth.Base.Bits.Step.{bit_xor_step}

-- An exclusive or stays below a power of two that bounds both sides.
pub bit_xor-lt : (k a b : ℕ) → a < 2 ^ k → b < 2 ^ k → bit_xor a b < 2 ^ k
bit_xor-lt zero a b ha hb =
    let left : a ≡ 0 = omega arith in
    let right : b ≡ 0 = omega arith in rw (left, right) (omega arith)
bit_xor-lt (suc k) a b ha hb = omega (
  arith,
  pow-suc 2 k,
  bit_xor_step a b,
  bit_xor-lt k (a / 2) (b / 2) (omega (arith, pow-suc 2 k)) (omega (arith, pow-suc 2 k)),
)

div_right_comm : (x p q : ℕ) → x / p / q ≡ x / q / p
div_right_comm x p q =
    div-div-eq-div-mul x p q ∙ ap (λ n. x / n) (mul_comm p q) ∙ sym (div-div-eq-div-mul x q p)

-- The lowest digit, and the rest as the same operation on the half.
xor_half_step :
    (q x : ℕ)
    → bit_xor x (x / 2 / q) ≡ (x % 2 + x / 2 / q % 2) % 2 + 2 * bit_xor (x / 2) (x / 2 / 2 / q)
xor_half_step q x =
    bit_xor_step x (x / 2 / q)
    ∙ ap (λ n. (x % 2 + x / 2 / q % 2) % 2 + 2 * bit_xor (x / 2) n) (div_right_comm (x / 2) q 2)

xor_half_injective_fuel :
    (n q x y : ℕ) → x ≤ n → y ≤ n → bit_xor x (x / 2 / q) ≡ bit_xor y (y / 2 / q) → x ≡ y
xor_half_injective_fuel zero q x y hx hy e = omega arith
xor_half_injective_fuel (suc n) q x y hx hy e =
    let halves : x / 2 ≡ y / 2 =
      xor_half_injective_fuel n q (x / 2) (y / 2) (omega arith) (omega arith)
        (omega (arith, xor_half_step q x, xor_half_step q y)) in
    omega (arith, xor_half_step q x, xor_half_step q y, halves, ap (λ h. h / q % 2) halves)

-- `x ^ (x >> (k + 1))` determines `x`.
pub xor_shift_injective :
    (k x y : ℕ) → bit_xor x (x / 2 ^ suc k) ≡ bit_xor y (y / 2 ^ suc k) → x ≡ y
xor_shift_injective k x y e =
    xor_half_injective_fuel (x + y) (2 ^ k) x y (omega arith) (omega arith)
      (sym (ap (bit_xor x) (by_two x)) ∙ e ∙ ap (bit_xor y) (by_two y))
  where
    by_two : (z : ℕ) → z / 2 ^ suc k ≡ z / 2 / 2 ^ k
    by_two z =
        ap (λ n. z / n) (pow-suc 2 k ∙ mul_comm (2 ^ k) 2) ∙ sym (div-div-eq-div-mul z 2 (2 ^ k))

-- It stays in the width of `x`.
pub xor_shift-lt : (w k x : ℕ) → x < 2 ^ w → bit_xor x (x / 2 ^ k) < 2 ^ w
xor_shift-lt w k x h = bit_xor-lt w x (x / 2 ^ k) h (omega (arith, div-le_self x (2 ^ k)))
