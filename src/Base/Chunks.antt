-- ===== src/Base/Chunks.antt =====
-- `chunks` and `chunks_mut` of slices: runs of `size` elements, the last one possibly shorter.
use Prim.Native.Nat.{ℕ, zero, suc, ◌≤◌, ◌<◌}
use mathlib.Core.Path.{◌≡◌, refl, ap, ◌∙◌}
use mathlib.Core.List.{List, [], ◌∷◌, ◌++◌}
use native.Mathlib.Omega.{arith}
use pktauth.Base.Tests.{◌==◌, if◌then◌else◌, ne→==}
use pktauth.Base.Panics.{Run, done, panic}
use pktauth.Base.Lists.{
  length, take, drop, All, take_more, length-take, length-drop, take-append-drop,
}

module _ {ℓ} {A : Type ℓ} where
  abbrev pub concat : List (List A) → List A
  concat [] = []
  concat (xs ∷ xss) = xs ++ concat xss

  -- The chunks of a list of at most `fuel` elements.
  abbrev pub chunks_fuel : ℕ → ℕ → List A → List (List A)
  chunks_fuel fuel size [] = []
  chunks_fuel zero size (x ∷ xs) = []
  chunks_fuel (suc fuel) size (x ∷ xs) =
      take size (x ∷ xs) ∷ chunks_fuel fuel size (drop size (x ∷ xs))

  -- A chunk size of zero panics.
  unfoldable pub chunks : ℕ → List A → Run (List (List A))
  chunks size xs = if size == 0 then panic else done (chunks_fuel (length xs) size xs)

  concat-chunks_fuel :
      (fuel size : ℕ) (xs : List A)
      → 0 < size
      → length xs ≤ fuel
      → concat (chunks_fuel fuel size xs) ≡ xs
  concat-chunks_fuel fuel size [] positive enough = refl
  concat-chunks_fuel zero size (x ∷ xs) positive enough = absurd (omega arith)
  concat-chunks_fuel (suc fuel) size (x ∷ xs) positive enough =
      ap (λ t. take size (x ∷ xs) ++ t)
        (concat-chunks_fuel fuel size (drop size (x ∷ xs)) positive
          (omega (arith, length-drop size (x ∷ xs))))
      ∙ take-append-drop size (x ∷ xs)

  -- The first chunk of a list that has one.
  pub chunks_fuel-suc :
      (fuel size : ℕ) (xs : List A)
      → 0 < length xs
      → chunks_fuel (suc fuel) size xs ≡ take size xs ∷ chunks_fuel fuel size (drop size xs)
  chunks_fuel-suc fuel size [] h = absurd (omega arith)
  chunks_fuel-suc fuel size (x ∷ xs) h = refl

  pub chunks_fuel-empty :
      (fuel size : ℕ) (xs : List A) → length xs ≡ 0 → chunks_fuel fuel size xs ≡ []
  chunks_fuel-empty fuel size [] h = refl
  chunks_fuel-empty fuel size (x ∷ xs) h = absurd (omega arith)

  -- No chunk is empty and none is longer than the size.
  abbrev pub IsChunk : ℕ → List A → Type 0
  IsChunk size xs = (0 < length xs) × (length xs ≤ size)

  chunks_fuel-IsChunk :
      (fuel size : ℕ) (xs : List A) → 0 < size → All (IsChunk size) (chunks_fuel fuel size xs)
  chunks_fuel-IsChunk fuel size [] positive = tt
  chunks_fuel-IsChunk zero size (x ∷ xs) positive = tt
  chunks_fuel-IsChunk (suc fuel) size (x ∷ xs) positive = (
    (omega (arith, length-take size (x ∷ xs)), omega (arith, length-take size (x ∷ xs))),
    chunks_fuel-IsChunk fuel size (drop size (x ∷ xs)) positive,
  )

  -- A positive size splits a list into chunks that give the list again.
  pub chunks_parts :
      (size : ℕ) (xs : List A)
      → 0 < size
      → (parts : List (List A)) × (chunks size xs ≡ done parts)
        × (concat parts ≡ xs)
        × All (IsChunk size) parts
  unfolding chunks
  chunks_parts size xs positive = (
    chunks_fuel (length xs) size xs,
    rw (ne→== size 0 (λ e. omega (arith, e))) refl,
    concat-chunks_fuel (length xs) size xs positive (omega arith),
    chunks_fuel-IsChunk (length xs) size xs positive,
  )

  -- A list that is not longer than the size is its only chunk.
  pub chunks_whole :
      (size : ℕ) (xs : List A) → 0 < length xs → length xs ≤ size → chunks size xs ≡ done (xs ∷ [])
  unfolding chunks
  chunks_whole size [] some_element h = absurd (omega arith)
  chunks_whole size (x ∷ xs) some_element h =
      let rest =
        chunks_fuel-empty (length xs) size (drop size (x ∷ xs))
          (omega (arith, length-drop size (x ∷ xs))) in
      rw (ne→== size 0 (λ e. omega (arith, e)), take_more (x ∷ xs) size h, rest) refl
