-- ===== src/Base/Panics.antt =====
-- Rust code that may panic, and the panicking operations on byte arrays.
use Prim.Native.Nat.{ℕ, ◌+◌, ◌-◌}
use mathlib.Core.Path.{◌≡◌, ap, sym, ◌∙◌}
use mathlib.Core.Bool.{◌&&◌}
use mathlib.Core.List.{List, ◌++◌, append_assoc}
use mathlib.Core.Option.{Option, none, some}
use native.Mathlib.Omega.{arith}
use pktauth.Base.Tests.{leb, ◌==◌, if◌then◌else◌, le→leb, eq→==}
use pktauth.Base.Lists.{length, take, drop, length-append, take-append, drop-append}

-- `done a` is a normal return of `a`, and `panic` a panic.
pub data Run {ℓ} (A : Type ℓ) : Type ℓ where
  done : A → Run A
  panic : Run A

infixl 5 ◌>>=◌
abbrev pub ◌>>=◌ {ℓ κ} : {A : Type ℓ} {B : Type κ} → Run A → (A → Run B) → Run B
done a >>= f = f a
panic >>= f = panic

-- `Option::expect`.
abbrev pub expect {ℓ} : {A : Type ℓ} → Option A → Run A
expect (some a) = done a
expect none = panic

-- `dst[lo..hi].copy_from_slice(src)`: the range must lie in `dst`, and `src` must fill it.
abbrev pub copy_from_slice : List ℕ → ℕ → ℕ → List ℕ → Run (List ℕ)
copy_from_slice dst lo hi src =
    if leb lo hi && (leb hi (length dst) && length src == hi - lo)
    then done (take lo dst ++ (src ++ drop hi dst))
    else panic

-- Writing over the middle of three parts leaves the outer two.
pub copy_from_slice-append :
    (pre mid post src : List ℕ) (lo hi : ℕ)
    → length pre ≡ lo
    → lo + length mid ≡ hi
    → length src ≡ length mid
    → copy_from_slice (pre ++ (mid ++ post)) lo hi src ≡ done (pre ++ (src ++ post))
copy_from_slice-append pre mid post src lo hi p q r =
    rw
      (
        le→leb lo hi (omega arith),
        le→leb hi (length (pre ++ (mid ++ post)))
            (omega (arith, length-append pre (mid ++ post), length-append mid post)),
        eq→== (length src) (hi - lo) (omega arith),
        take-append pre (mid ++ post) lo p,
      )
      (ap (λ t. done (pre ++ (src ++ t)))
        (ap (drop hi) (sym (append_assoc pre mid post))
          ∙ drop-append (pre ++ mid) post hi (omega (arith, length-append pre mid))))
