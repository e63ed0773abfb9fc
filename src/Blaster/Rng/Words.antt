-- ===== src/Blaster/Rng/Words.antt =====
-- The words of `SplitMix64` over its whole period.
use pktauth.Base.{
  ℕ, zero, suc, ◌+◌, ◌*◌, ◌/◌, ◌%◌, ◌^◌, ◌<◌, ◌≡◌, refl, ap, sym, ◌∙◌, arith, bit_xor,
}
use pktauth.Base.Bits.{xor_shift_injective, xor_shift-lt}
use pktauth.Blaster.Rng.{SplitMix64, next, wrapping_mul}

-- The generator after `n` words.
abbrev pub after : ℕ → SplitMix64 → SplitMix64
after zero rng = rng
after (suc n) rng = after n (next rng).1

pub after-after : (m n : ℕ) (rng : SplitMix64) → after m (after n rng) ≡ after (n + m) rng
after-after m zero rng = let same : m ≡ zero + m = omega arith in ap (λ k. after k rng) same
after-after m (suc n) rng =
    let one_more : suc (n + m) ≡ suc n + m = omega arith in
    after-after m n (next rng).1 ∙ ap (λ k. after k rng) one_more

-- The multipliers are odd: each has an inverse modulo 2 ^ 64.
first_mul_injective :
    (x y : ℕ)
    → x < 2 ^ 64
    → y < 2 ^ 64
    → wrapping_mul x 0xbf58476d1ce4e5b9 ≡ wrapping_mul y 0xbf58476d1ce4e5b9
    → x ≡ y
first_mul_injective x y hx hy e =
    let undo : (z : ℕ)
        → z < 2 ^ 64
        → wrapping_mul z 0xbf58476d1ce4e5b9 * 0x96de1b173f119089 % 2 ^ 64 ≡ z =
      λ z h. omega arith in
    sym (undo x hx) ∙ ap (λ (t : ℕ). t * 0x96de1b173f119089 % 2 ^ 64) e ∙ undo y hy

second_mul_injective :
    (x y : ℕ)
    → x < 2 ^ 64
    → y < 2 ^ 64
    → wrapping_mul x 0x94d049bb133111eb ≡ wrapping_mul y 0x94d049bb133111eb
    → x ≡ y
second_mul_injective x y hx hy e =
    let undo : (z : ℕ)
        → z < 2 ^ 64
        → wrapping_mul z 0x94d049bb133111eb * 0x319642b2d24d8ec3 % 2 ^ 64 ≡ z =
      λ z h. omega arith in
    sym (undo x hx) ∙ ap (λ (t : ℕ). t * 0x319642b2d24d8ec3 % 2 ^ 64) e ∙ undo y hy

-- The three rounds that make a word of a state.
scrambled : ℕ → ℕ
scrambled s =
    let z = wrapping_mul (bit_xor s (s / 2 ^ 30)) 0xbf58476d1ce4e5b9 in
    let z' = wrapping_mul (bit_xor z (z / 2 ^ 27)) 0x94d049bb133111eb in bit_xor z' (z' / 2 ^ 31)

scrambled_injective : (s t : ℕ) → s < 2 ^ 64 → t < 2 ^ 64 → scrambled s ≡ scrambled t → s ≡ t
unfolding scrambled
scrambled_injective s t hs ht e = xor_shift_injective 29 s t (
    first_mul_injective _ _ (xor_shift-lt 64 30 s hs) (xor_shift-lt 64 30 t ht) (
      xor_shift_injective 26 _ _ (
        second_mul_injective _ _ (xor_shift-lt 64 27 _ (omega arith))
          (xor_shift-lt 64 27 _ (omega arith)) (xor_shift_injective 30 _ _ e))))

-- A word is below 2 ^ 64.
pub next-lt : (rng : SplitMix64) → (next rng).0 < 2 ^ 64
unfolding next
next-lt rng = xor_shift-lt 64 31 _ (omega arith)

next_state : (rng : SplitMix64) → (next rng).1.state ≡ (rng.state + 0x9e3779b97f4a7c15) % 2 ^ 64
unfolding next
next_state rng = refl

next-scrambled : (rng : SplitMix64) → (next rng).0 ≡ scrambled (next rng).1.state
unfolding next scrambled
next-scrambled rng = refl

after_state :
    (n : ℕ) (rng : SplitMix64)
    → (after n rng).state % 2 ^ 64 ≡ (rng.state + n * 0x9e3779b97f4a7c15) % 2 ^ 64
after_state zero rng = omega arith
after_state (suc n) rng = omega (arith, after_state n (next rng).1, next_state rng)

-- Words at two places are equal only if the places are, modulo 2 ^ 64.
pub same_word :
    (i j : ℕ) (rng : SplitMix64)
    → (next (after i rng)).0 ≡ (next (after j rng)).0
    → i % 2 ^ 64 ≡ j % 2 ^ 64
same_word i j rng e =
    let states : (next (after i rng)).1.state ≡ (next (after j rng)).1.state =
      scrambled_injective _ _ (omega (arith, next_state (after i rng)))
        (omega (arith, next_state (after j rng)))
        (sym (next-scrambled (after i rng)) ∙ e ∙ next-scrambled (after j rng)) in
    let steps : i * 0x9e3779b97f4a7c15 % 2 ^ 64 ≡ j * 0x9e3779b97f4a7c15 % 2 ^ 64 = omega (
      arith,
      states,
      next_state (after i rng),
      next_state (after j rng),
      after_state i rng,
      after_state j rng,
    ) in
    let undo : (n : ℕ)
        → n * 0x9e3779b97f4a7c15 % 2 ^ 64 * 0xf1de83e19937733d % 2 ^ 64 ≡ n % 2 ^ 64 =
      λ n. omega arith in
    sym (undo i) ∙ ap (λ (t : ℕ). t * 0xf1de83e19937733d % 2 ^ 64) steps ∙ undo j

-- From any state, no two of the first 2 ^ 64 words of the generator are equal.
pub next-distinct :
    (rng : SplitMix64) (i j : ℕ)
    → i < 2 ^ 64
    → j < 2 ^ 64
    → (next (after i rng)).0 ≡ (next (after j rng)).0
    → i ≡ j
next-distinct rng i j hi hj e = omega (arith, same_word i j rng e)
