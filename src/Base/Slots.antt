-- ===== src/Base/Slots.antt =====
-- Positions in lists: reads, writes, and what a write leaves alone.
use Prim.Native.Nat.{ℕ, zero, suc, ◌<◌, ◌≤◌, min}
use mathlib.Core.Path.{◌≡◌, refl, ap, ◌∙◌, subst}
use mathlib.Core.List.{List, [], ◌∷◌, ◌++◌}
use mathlib.Core.Option.{some, none}
use native.Mathlib.Omega.{arith}
use pktauth.Base.Lists.{length, take, get_elem?, set, All}

pub take-min {ℓ} : {A : Type ℓ} (n : ℕ) (xs : List A) → take (min (length xs) n) xs ≡ take n xs
take-min zero xs =
    let none_left : min (length xs) zero ≡ zero = omega arith in ap (λ k. take k xs) none_left
take-min {A} (suc n) [] =
    let none_left : min 0 (suc n) ≡ zero = omega arith in
    ap (λ (k : ℕ). take {A = A} k []) none_left
take-min (suc n) (x ∷ xs) =
    let step : min (suc (length xs)) (suc n) ≡ suc (min (length xs) n) = omega arith in
    ap (λ k. take k (x ∷ xs)) step ∙ ap (λ t. x ∷ t) (take-min n xs)

pub length-set {ℓ} : {A : Type ℓ} (xs : List A) (i : ℕ) (v : A) → length (set xs i v) ≡ length xs
length-set [] i v = refl
length-set (x ∷ xs) zero v = refl
length-set (x ∷ xs) (suc i) v = ap suc (length-set xs i v)

pub get_elem?-lt {ℓ} :
    {A : Type ℓ} (xs : List A) (i : ℕ) → i < length xs → (x : A) × (get_elem? xs i ≡ some x)
get_elem?-lt [] i h = absurd (omega arith)
get_elem?-lt (x ∷ xs) zero h = (x, refl)
get_elem?-lt (x ∷ xs) (suc i) h = get_elem?-lt xs i (omega arith)

pub lt-get_elem? {ℓ} :
    {A : Type ℓ} (xs : List A) (i : ℕ) {x : A} → get_elem? xs i ≡ some x → i < length xs
lt-get_elem? [] i h = cc
lt-get_elem? (x ∷ xs) zero h = omega arith
lt-get_elem? (x ∷ xs) (suc i) h = omega (arith, lt-get_elem? xs i h)

pub All-get_elem? {ℓ κ} :
    {A : Type ℓ} (P : A → Type κ) (xs : List A) (i : ℕ) {x : A}
    → All P xs
    → get_elem? xs i ≡ some x
    → P x
All-get_elem? P [] i a h = cc
All-get_elem? P (x ∷ xs) zero a h = subst P (cc) (a.0)
All-get_elem? P (x ∷ xs) (suc i) a h = All-get_elem? P xs i a.1 h

pub All-set {ℓ κ} :
    {A : Type ℓ} (P : A → Type κ) (xs : List A) (i : ℕ) (x : A)
    → All P xs
    → P x
    → All P (set xs i x)
All-set P [] i x a h = tt
All-set P (y ∷ ys) zero x a h = (h, a.1)
All-set P (y ∷ ys) (suc i) x a h = (a.0, All-set P ys i x a.1 h)

pub All-snoc {ℓ κ} :
    {A : Type ℓ} (P : A → Type κ) (xs : List A) (x : A) → All P xs → P x → All P (xs ++ (x ∷ []))
All-snoc P [] x a h = (h, tt)
All-snoc P (y ∷ ys) x a h = (a.0, All-snoc P ys x a.1 h)

pub All-at {ℓ κ} :
    {A : Type ℓ} (P : A → Type κ) (xs : List A)
    → ((i : ℕ) (x : A) → get_elem? xs i ≡ some x → P x)
    → All P xs
All-at P [] h = tt
All-at P (x ∷ xs) h = (h 0 x refl, All-at P xs (λ i y at. h (suc i) y at))

pub none-get_elem? {ℓ} : {A : Type ℓ} (xs : List A) (i : ℕ) → get_elem? xs i ≡ none → length xs ≤ i
none-get_elem? [] i h = omega arith
none-get_elem? (x ∷ xs) zero h = cc
none-get_elem? (x ∷ xs) (suc i) h = omega (arith, none-get_elem? xs i h)
