-- ===== src/Base/Bits/Step.antt =====
-- The native bit operations stand for `bitwise`, a recursion on binary digits with a count. Here
-- the count is dropped: one equation for the lowest digit.
use Prim.Native.Nat.{
  ℕ, zero, suc, ◌+◌, ◌-◌, ◌*◌, ◌/◌, ◌%◌, ◌≤◌, ◌<◌, min, max, differ, digits, bitwise,
}
use Prim.Native.Nat.{bit_and, bit_or, bit_xor, bit_and-bitwise, bit_or-bitwise, bit_xor-bitwise}
use mathlib.Core.Path.{◌≡◌, refl, ap, ◌∙◌}
use native.Mathlib.Omega.{arith}

module _ (last : ℕ → ℕ) (op : ℕ → ℕ → ℕ) where
  -- A count that covers the first number can be one more.
  one_more : (n x y : ℕ) → x ≤ n → digits last op (suc n) x y ≡ digits last op n x y
  one_more zero zero y covers = refl
  one_more zero (suc x) y covers = absurd (omega arith)
  one_more (suc n) zero y covers = refl
  one_more (suc n) (suc x) y covers =
      ap (λ r. r * 2 + op (suc x % 2) (y % 2)) (one_more n (suc x / 2) (y / 2) (omega arith))

  -- So any count that covers it gives what the number itself gives as the count.
  covered : (spare n x y : ℕ) → x + spare ≡ n → digits last op n x y ≡ digits last op x x y
  covered zero n x y e = let same : n ≡ x = omega arith in ap (λ k. digits last op k x y) same
  covered (suc spare) zero x y e = absurd (omega arith)
  covered (suc spare) (suc n) x y e =
      one_more n x y (omega arith) ∙ covered spare n x y (omega arith)

  lowest_digit :
      (x y : ℕ)
      → bitwise last op (suc x) y ≡ op (suc x % 2) (y % 2) + 2 * bitwise last op (suc x / 2) (y / 2)
  lowest_digit x y = omega (arith, covered (x - suc x / 2) x (suc x / 2) (y / 2) (omega arith))

pub zero-bit_or : (b : ℕ) → bit_or 0 b ≡ b
zero-bit_or b = bit_or-bitwise 0 b

pub zero-bit_xor : (b : ℕ) → bit_xor 0 b ≡ b
zero-bit_xor b = bit_xor-bitwise 0 b

pub zero-bit_and : (b : ℕ) → bit_and 0 b ≡ 0
zero-bit_and b = bit_and-bitwise 0 b

differ_digits : (x y : ℕ) → x < 2 → y < 2 → differ x y ≡ (x + y) % 2
differ_digits zero y hx hy = omega arith
differ_digits (suc zero) zero hx hy = refl
differ_digits (suc zero) (suc zero) hx hy = refl
differ_digits (suc zero) (suc (suc y)) hx hy = absurd (omega arith)
differ_digits (suc (suc x)) y hx hy = absurd (omega arith)

-- The lowest digit of each operation, and the rest by halves.
pub bit_or_step : (x y : ℕ) → bit_or x y ≡ max (x % 2) (y % 2) + 2 * bit_or (x / 2) (y / 2)
bit_or_step zero y = omega (zero-bit_or y, arith, zero-bit_or (y / 2))
bit_or_step (suc x) y = simp bit_or-bitwise (lowest_digit (λ b. b) max x y)

pub bit_and_step : (x y : ℕ) → bit_and x y ≡ min (x % 2) (y % 2) + 2 * bit_and (x / 2) (y / 2)
bit_and_step zero y = omega (zero-bit_and y, arith, zero-bit_and (y / 2))
bit_and_step (suc x) y = simp bit_and-bitwise (lowest_digit (λ b. 0) min x y)

pub bit_xor_step : (x y : ℕ) → bit_xor x y ≡ (x % 2 + y % 2) % 2 + 2 * bit_xor (x / 2) (y / 2)
bit_xor_step zero y = omega (zero-bit_xor y, arith, zero-bit_xor (y / 2))
bit_xor_step (suc x) y =
    rw (← differ_digits (suc x % 2) (y % 2) (omega arith) (omega arith))
      (simp bit_xor-bitwise (lowest_digit (λ b. b) differ x y))
