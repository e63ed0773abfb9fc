-- ===== src/Auth/Verify/Compare.antt =====
-- `constant_time_eq` is equality: the fold keeps every difference.
use pktauth.Base.{ℕ, List, [], ◌∷◌, ◌≡◌, refl, ap, ◌↔◌, ◌≢◌, inl, inr, true, false, arith}
use pktauth.Base.{length, Bool-cases, bit_or, bit_xor}
use pktauth.Base.Bits.{bit_or-eq-zero_iff, bit_xor-eq-zero_iff}
use pktauth.Auth.Verify.{fold_differences, constant_time_eq}
use mathlib.Core.List.{zip}

fold_differences-zero :
    (acc : ℕ) (a b : List ℕ)
    → length a ≡ length b
    → (fold_differences acc a b ≡ 0) ↔ ((acc ≡ 0) × (a ≡ b))
unfolding fold_differences zip
fold_differences-zero acc [] [] h = (λ e. (e, refl), λ p. p.0)
fold_differences-zero acc [] (y ∷ ys) h = absurd (omega arith)
fold_differences-zero acc (x ∷ xs) [] h = absurd (omega arith)
fold_differences-zero acc (x ∷ xs) (y ∷ ys) h = ground (
  arith,
  fold_differences-zero (bit_or acc (bit_xor x y)) xs ys (omega arith),
  bit_or-eq-zero_iff acc (bit_xor x y),
  bit_xor-eq-zero_iff x y,
)

-- `constant_time_eq` says true exactly on equal byte strings.
pub constant_time_eq_iff : (a b : List ℕ) → (constant_time_eq a b ≡ true) ↔ (a ≡ b)
unfolding constant_time_eq
constant_time_eq_iff a b = (
  λ e. ground (arith, fold_differences-zero 0 a b),
  λ e. ground (arith, fold_differences-zero 0 a b, ap length e),
)

pub constant_time_eq_ne : (a b : List ℕ) → a ≢ b → constant_time_eq a b ≡ false
constant_time_eq_ne a b h = elim (Bool-cases (constant_time_eq a b)) [
  | inl e ↦ absurd (h ((constant_time_eq_iff a b).0 e))
  | inr e ↦ e
]
