-- ===== src/Blaster/Workers/Total.antt =====
-- Sums over the threads.
use pktauth.Base.{
  ℕ, zero, suc, ◌+◌, ◌*◌, ◌≤◌, List, [], ◌∷◌, ◌≡◌, refl, arith, some, set, get_elem?, length,
}
use pktauth.Base.{All}

module _ {ℓ} {A : Type ℓ} (weight : A → ℕ) where
  abbrev pub total : List A → ℕ
  total [] = 0
  total (x ∷ xs) = weight x + total xs

  pub total-set :
      (xs : List A) (i : ℕ) (x y : A)
      → get_elem? xs i ≡ some x
      → total (set xs i y) + weight x ≡ total xs + weight y
  total-set [] i x y e = cc
  total-set (z ∷ xs) zero x y e = let same : weight z ≡ weight x = cc e in omega (arith, same)
  total-set (z ∷ xs) (suc i) x y e = omega (arith, total-set xs i x y e)

  pub total-zero : (xs : List A) → All (λ x. weight x ≡ 0) xs → total xs ≡ 0
  total-zero [] a = refl
  total-zero (x ∷ xs) a = omega (arith, a.0, total-zero xs a.1)

  pub total-le :
      (bound : ℕ) (xs : List A) → ((x : A) → weight x ≤ bound) → total xs ≤ bound * length xs
  total-le bound [] h = omega arith
  total-le bound (x ∷ xs) h = grind (arith, h x, total-le bound xs h)
