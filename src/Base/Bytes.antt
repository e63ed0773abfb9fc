-- ===== src/Base/Bytes.antt =====
-- Bytes, and unsigned integers as big-endian bytes.
use Prim.Native.Nat.{ℕ, zero, suc, ◌+◌, ◌*◌, ◌/◌, ◌%◌, ◌^◌, ◌<◌}
use mathlib.Core.Path.{◌≡◌, refl, ap}
use mathlib.Core.List.{List, [], ◌∷◌, ◌++◌}
use native.Mathlib.Omega.{arith}
use pktauth.Base.Lists.{length, take, drop, replicate, All}

abbrev pub IsByte : ℕ → Type 0
IsByte b = b < 256

abbrev pub AreBytes : List ℕ → Type 0
AreBytes xs = All IsByte xs

-- The `width` lowest bytes of a number, highest first: `to_be_bytes` at a type of that width.
abbrev pub to_be_bytes : ℕ → ℕ → List ℕ
to_be_bytes zero n = []
to_be_bytes (suc width) n = (n / 256 ^ width % 256) ∷ to_be_bytes width n

-- `u16::from_be_bytes([high, low])`.
abbrev pub u16_from_be_bytes : ℕ → ℕ → ℕ
u16_from_be_bytes high low = high * 256 + low

pub length-to_be_bytes : (width n : ℕ) → length (to_be_bytes width n) ≡ width
length-to_be_bytes zero n = refl
length-to_be_bytes (suc width) n = ap suc (length-to_be_bytes width n)

-- Eight bytes determine a word.
pub to_be_bytes-injective :
    (m n : ℕ) → m < 2 ^ 64 → n < 2 ^ 64 → to_be_bytes 8 m ≡ to_be_bytes 8 n → m ≡ n
to_be_bytes-injective m n hm hn e = ground arith

pub to_be_bytes-AreBytes : (width n : ℕ) → AreBytes (to_be_bytes width n)
to_be_bytes-AreBytes zero n = tt
to_be_bytes-AreBytes (suc width) n = (omega arith, to_be_bytes-AreBytes width n)

pub AreBytes-replicate : (n b : ℕ) → IsByte b → AreBytes (replicate n b)
AreBytes-replicate zero b h = tt
AreBytes-replicate (suc n) b h = (h, AreBytes-replicate n b h)

pub AreBytes-append : (xs ys : List ℕ) → AreBytes xs → AreBytes ys → AreBytes (xs ++ ys)
AreBytes-append [] ys hx hy = hy
AreBytes-append (x ∷ xs) ys hx hy = (hx.0, AreBytes-append xs ys hx.1 hy)

pub AreBytes-take : (n : ℕ) (xs : List ℕ) → AreBytes xs → AreBytes (take n xs)
AreBytes-take zero xs h = tt
AreBytes-take (suc n) [] h = tt
AreBytes-take (suc n) (x ∷ xs) h = (h.0, AreBytes-take n xs h.1)

pub AreBytes-drop : (n : ℕ) (xs : List ℕ) → AreBytes xs → AreBytes (drop n xs)
AreBytes-drop zero xs h = h
AreBytes-drop (suc n) [] h = tt
AreBytes-drop (suc n) (x ∷ xs) h = AreBytes-drop n xs h.1

pub AreBytes-left : (xs ys : List ℕ) → AreBytes (xs ++ ys) → AreBytes xs
AreBytes-left [] ys h = tt
AreBytes-left (x ∷ xs) ys h = (h.0, AreBytes-left xs ys h.1)

pub AreBytes-right : (xs ys : List ℕ) → AreBytes (xs ++ ys) → AreBytes ys
AreBytes-right [] ys h = h
AreBytes-right (x ∷ xs) ys h = AreBytes-right xs ys h.1
