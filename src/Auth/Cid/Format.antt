-- ===== src/Auth/Cid/Format.antt =====
-- The two header forms of QUIC, and `destination_cid` as their parser.
use pktauth.Base.{ℕ, suc, ◌+◌, ◌≤◌, ◌<◌, List, [], ◌∷◌, ◌++◌, ◌≡◌, ◌↔◌, refl, ap, ◌∙◌, sym, arith}
use pktauth.Base.{length, drop, get_elem?, slice, slice-append, slice_parts, some}
use pktauth.Base.{ltb, Bool-cases, inl, inr, length-append, append_assoc, zero}
use pktauth.Base.Bytes.{AreBytes}
use pktauth.Base.Bits.{bit_and_top}
use pktauth.Auth.Cid.{destination_cid, long_header_cid}

-- A datagram with a connection ID in its destination field.
pub data Carries (datagram cid : List ℕ) : Type 0 where
  long :
      (flags : ℕ) (version rest : List ℕ)
      → 128 ≤ flags
      → length version ≡ 4
      → length cid ≤ 20
      → datagram ≡ flags ∷ (version ++ (length cid ∷ (cid ++ rest)))
      → Carries datagram cid
  short :
      (flags : ℕ) (rest : List ℕ)
      → flags < 128
      → length cid ≡ 20
      → datagram ≡ flags ∷ (cid ++ rest)
      → Carries datagram cid

get_elem?-append :
    (xs ys : List ℕ) (y n : ℕ) → length xs ≡ n → get_elem? (xs ++ (y ∷ ys)) n ≡ some y
get_elem?-append [] ys y zero h = refl
get_elem?-append [] ys y (suc n) h = absurd (omega arith)
get_elem?-append (x ∷ xs) ys y zero h = absurd (omega arith)
get_elem?-append (x ∷ xs) ys y (suc n) h = get_elem?-append xs ys y n (omega arith)

pub destination_cid-long :
    (flags : ℕ) (version cid rest : List ℕ)
    → flags < 256
    → 128 ≤ flags
    → length version ≡ 4
    → length cid ≤ 20
    → destination_cid (flags ∷ (version ++ (length cid ∷ (cid ++ rest)))) ≡ some cid
unfolding destination_cid
destination_cid-long flags version cid rest byte high v c =
    ground
      (arith, bit_and_top flags, get_elem?-append version (cid ++ rest) (length cid) 4 v, at_cid)
  where
    at_cid : slice (flags ∷ (version ++ (length cid ∷ (cid ++ rest)))) 6 (6 + length cid) ≡ some cid
    at_cid =
        ap (λ t. slice (flags ∷ t) 6 (6 + length cid))
          (sym (append_assoc version (length cid ∷ []) (cid ++ rest)))
        ∙ slice-append (flags ∷ (version ++ (length cid ∷ []))) cid rest 6 (6 + length cid)
            (omega (arith, length-append version (length cid ∷ []))) refl

destination_cid-short :
    (flags : ℕ) (cid rest : List ℕ)
    → flags < 128
    → length cid ≡ 20
    → destination_cid (flags ∷ (cid ++ rest)) ≡ some cid
unfolding destination_cid
destination_cid-short flags cid rest low c =
    ground (arith, bit_and_top flags, slice-append (flags ∷ []) cid rest 1 21 refl (omega arith))

long_header_cid-Carries :
    (datagram : List ℕ) {cid : List ℕ} {flags : ℕ}
    → get_elem? datagram 0 ≡ some flags
    → 128 ≤ flags
    → long_header_cid datagram ≡ some cid
    → Carries datagram cid
unfolding long_header_cid
long_header_cid-Carries [] g high e = cc
long_header_cid-Carries (f ∷ []) g high e = cc
long_header_cid-Carries (f ∷ v ∷ []) g high e = cc
long_header_cid-Carries (f ∷ v ∷ w ∷ []) g high e = cc
long_header_cid-Carries (f ∷ v ∷ w ∷ x ∷ []) g high e = cc
long_header_cid-Carries (f ∷ v ∷ w ∷ x ∷ y ∷ []) g high e = cc
long_header_cid-Carries (f ∷ v ∷ w ∷ x ∷ y ∷ len ∷ rest) {cid} {flags} g high e =
    let datagram : List ℕ = f ∷ v ∷ w ∷ x ∷ y ∷ len ∷ rest in
    let found : slice datagram 6 (6 + len) ≡ some cid = ground arith in
    let short_enough : len ≤ 20 = ground arith in
    let (lo, hi, size, parts) = slice_parts datagram 6 (6 + len) found in
    let same : length cid ≡ len = omega arith in
    long f (v ∷ w ∷ x ∷ y ∷ []) (drop (6 + len) datagram) (ground arith) refl (omega arith)
      (rw same parts)

Carries-of :
    (datagram : List ℕ) {cid : List ℕ}
    → AreBytes datagram
    → destination_cid datagram ≡ some cid
    → Carries datagram cid
unfolding destination_cid
Carries-of [] bytes e = cc
Carries-of (flags ∷ tail) {cid} bytes e = elim (Bool-cases (ltb flags 128)) [
  | inl low ↦
      let found : slice (flags ∷ tail) 1 21 ≡ some cid = ground (arith, bit_and_top flags) in
      let (lo, hi, size, parts) = slice_parts (flags ∷ tail) 1 21 found in
      short flags (drop 20 tail) (ground arith) size parts
  | inr high ↦
      long_header_cid-Carries (flags ∷ tail) refl (ground arith) (ground (arith, bit_and_top flags))
]

Carries-destination_cid :
    (datagram : List ℕ) {cid : List ℕ}
    → AreBytes datagram
    → Carries datagram cid
    → destination_cid datagram ≡ some cid
Carries-destination_cid datagram {cid} bytes (long flags version rest high v c e) =
    let byte : AreBytes (flags ∷ (version ++ (length cid ∷ (cid ++ rest)))) = rw e at bytes in
    ap destination_cid e ∙ destination_cid-long flags version cid rest byte.0 high v c
Carries-destination_cid datagram {cid} bytes (short flags rest low c e) =
    ap destination_cid e ∙ destination_cid-short flags cid rest low c

-- `destination_cid` finds a connection ID exactly in the datagrams that carry it in one of the two
-- header forms: the ID of at most twenty bytes behind its length in a long header, or the twenty
-- bytes behind the flags of a short one. It reads nothing out of range.
pub destination_cid_iff :
    (datagram cid : List ℕ)
    → AreBytes datagram
    → (destination_cid datagram ≡ some cid) ↔ Carries datagram cid
destination_cid_iff datagram cid bytes =
    (Carries-of datagram bytes, Carries-destination_cid datagram bytes)
