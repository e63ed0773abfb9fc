-- ===== src/Base/Lists.antt =====
-- Lists measured and cut by native numbers, under the library's names, and slices of them.
use Prim.Native.Nat.{ℕ, zero, suc, ◌+◌, ◌-◌, ◌≤◌, ◌<◌, min}
use mathlib.Core.Path.{◌≡◌, refl, ap, sym, ◌∙◌}
use mathlib.Core.Bool.{◌&&◌}
use mathlib.Core.List.{List, [], ◌∷◌, ◌++◌}
use mathlib.Core.Option.{Option, none, some}
use native.Mathlib.Omega.{arith}
use native.Mathlib.Nat.{zero-add, suc-add}
use pktauth.Base.Tests.{leb, if◌then◌else◌, le→leb, lt→leb}

module _ {ℓ} {A : Type ℓ} where
  abbrev pub length : List A → ℕ
  length [] = 0
  length (x ∷ xs) = suc (length xs)

  abbrev pub get_elem? : List A → ℕ → Option A
  get_elem? [] i = none
  get_elem? (x ∷ xs) zero = some x
  get_elem? (x ∷ xs) (suc i) = get_elem? xs i

  abbrev pub take : ℕ → List A → List A
  take zero xs = []
  take (suc n) [] = []
  take (suc n) (x ∷ xs) = x ∷ take n xs

  abbrev pub drop : ℕ → List A → List A
  drop zero xs = xs
  drop (suc n) [] = []
  drop (suc n) (x ∷ xs) = drop n xs

  -- A write out of bounds changes nothing.
  abbrev pub set : List A → ℕ → A → List A
  set [] i v = []
  set (x ∷ xs) zero v = v ∷ xs
  set (x ∷ xs) (suc i) v = x ∷ set xs i v

  abbrev pub replicate : ℕ → A → List A
  replicate zero a = []
  replicate (suc n) a = a ∷ replicate n a

  abbrev pub All {κ} : (A → Type κ) → List A → Type κ
  All P [] = Unit {κ}
  All P (x ∷ xs) = P x × All P xs

  -- `xs.get(lo..hi)`.
  abbrev pub slice : List A → ℕ → ℕ → Option (List A)
  slice xs lo hi =
      if leb lo hi && leb hi (length xs) then some (take (hi - lo) (drop lo xs)) else none

abbrev pub sum : List ℕ → ℕ
sum [] = 0
sum (n ∷ ns) = n + sum ns

module _ {ℓ} {A : Type ℓ} where
  pub length-append : (xs ys : List A) → length (xs ++ ys) ≡ length xs + length ys
  length-append [] ys = omega arith
  length-append (x ∷ xs) ys = omega (arith, length-append xs ys)

  pub length-take : (n : ℕ) (xs : List A) → length (take n xs) ≡ min n (length xs)
  length-take zero xs = omega arith
  length-take (suc n) [] = omega arith
  length-take (suc n) (x ∷ xs) = omega (arith, length-take n xs)

  pub length-drop : (n : ℕ) (xs : List A) → length (drop n xs) ≡ length xs - n
  length-drop zero xs = omega arith
  length-drop (suc n) [] = omega arith
  length-drop (suc n) (x ∷ xs) = omega (arith, length-drop n xs)

  pub length-replicate : (n : ℕ) (a : A) → length (replicate n a) ≡ n
  length-replicate zero a = refl
  length-replicate (suc n) a = ap suc (length-replicate n a)

  pub take-append-drop : (n : ℕ) (xs : List A) → take n xs ++ drop n xs ≡ xs
  take-append-drop zero xs = refl
  take-append-drop (suc n) [] = refl
  take-append-drop (suc n) (x ∷ xs) = rw (take-append-drop n xs)

  pub take-append : (xs ys : List A) (n : ℕ) → length xs ≡ n → take n (xs ++ ys) ≡ xs
  take-append [] ys zero h = refl
  take-append [] ys (suc n) h = absurd (omega arith)
  take-append (x ∷ xs) ys zero h = absurd (omega arith)
  take-append (x ∷ xs) ys (suc n) h = ap (λ t. x ∷ t) (take-append xs ys n (omega arith))

  pub drop-append : (xs ys : List A) (n : ℕ) → length xs ≡ n → drop n (xs ++ ys) ≡ ys
  drop-append [] ys zero h = refl
  drop-append [] ys (suc n) h = absurd (omega arith)
  drop-append (x ∷ xs) ys zero h = absurd (omega arith)
  drop-append (x ∷ xs) ys (suc n) h = drop-append xs ys n (omega arith)

  pub take_all : (xs : List A) (n : ℕ) → length xs ≡ n → take n xs ≡ xs
  take_all [] zero h = refl
  take_all [] (suc n) h = refl
  take_all (x ∷ xs) zero h = absurd (omega arith)
  take_all (x ∷ xs) (suc n) h = ap (λ t. x ∷ t) (take_all xs n (omega arith))

  pub take_more : (xs : List A) (n : ℕ) → length xs ≤ n → take n xs ≡ xs
  take_more [] zero h = refl
  take_more [] (suc n) h = refl
  take_more (x ∷ xs) zero h = absurd (omega arith)
  take_more (x ∷ xs) (suc n) h = ap (λ t. x ∷ t) (take_more xs n (omega arith))

  -- Two lists with parts of one length are equal only part by part.
  pub append_injective :
      (xs xs' ys ys' : List A)
      → length xs ≡ length xs'
      → xs ++ ys ≡ xs' ++ ys'
      → (xs ≡ xs') × (ys ≡ ys')
  append_injective [] [] ys ys' h e = (refl, e)
  append_injective [] (x ∷ xs') ys ys' h e = absurd (omega arith)
  append_injective (x ∷ xs) [] ys ys' h e = absurd (omega arith)
  append_injective (x ∷ xs) (x' ∷ xs') ys ys' h e =
      let rest : (xs ≡ xs') × (ys ≡ ys') = append_injective xs xs' ys ys' (omega arith) (cc e) in
      (cc (e, rest.0), rest.1)

  pub drop-drop : (m n : ℕ) (xs : List A) → drop m (drop n xs) ≡ drop (n + m) xs
  drop-drop m zero xs = rw zero-add
  drop-drop zero (suc n) [] = rw suc-add
  drop-drop (suc m) (suc n) [] = rw suc-add
  drop-drop m (suc n) (x ∷ xs) = rw suc-add (drop-drop m n xs)

-- Slices, `xs.get(lo..hi)`.
module _ {ℓ} {A : Type ℓ} where
  -- In range a slice is there.
  pub slice-some :
      (xs : List A) (lo hi : ℕ)
      → lo ≤ hi
      → hi ≤ length xs
      → slice xs lo hi ≡ some (take (hi - lo) (drop lo xs))
  slice-some xs lo hi p q = rw (le→leb lo hi p, le→leb hi (length xs) q)

  pub slice-none : (xs : List A) (lo hi : ℕ) → length xs < hi → slice xs lo hi ≡ none
  slice-none xs lo hi q = ground (arith, lt→leb hi (length xs) q)

  -- The slice that holds the middle of three parts.
  pub slice-append :
      (pre mid post : List A) (lo hi : ℕ)
      → length pre ≡ lo
      → lo + length mid ≡ hi
      → slice (pre ++ (mid ++ post)) lo hi ≡ some mid
  slice-append pre mid post lo hi p q =
      slice-some _ lo hi (omega arith)
        (omega (arith, length-append pre (mid ++ post), length-append mid post))
      ∙ rw (drop-append pre (mid ++ post) lo p)
          (ap some (take-append mid post (hi - lo) (omega arith)))

  -- A slice is the middle of three parts, of the lengths that its bounds say.
  pub slice_parts :
      (xs : List A) (lo hi : ℕ) {s : List A}
      → slice xs lo hi ≡ some s
      → (lo ≤ hi) × (hi ≤ length xs) × (length s ≡ hi - lo) × (xs ≡ take lo xs ++ (s ++ drop hi xs))
  slice_parts xs lo hi {s} e = (
    ordered,
    within,
    ap length found ∙ length-take (hi - lo) (drop lo xs) ∙ omega (arith, length-drop lo xs, within),
    sym (rw (found, drop_hi, take-append-drop (hi - lo) (drop lo xs)) (take-append-drop lo xs)),
  )
    where
      ordered : lo ≤ hi
      ordered = ground arith

      within : hi ≤ length xs
      within = ground arith

      found : s ≡ take (hi - lo) (drop lo xs)
      found = cc (e, slice-some xs lo hi ordered within)

      drop_hi : drop hi xs ≡ drop (hi - lo) (drop lo xs)
      drop_hi = rw drop-drop (ap (λ n. drop n xs) (omega (arith, ordered)))
