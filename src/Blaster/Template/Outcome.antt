-- ===== src/Blaster/Template/Outcome.antt =====
-- What `InitialTemplate::new` makes of each size.
use pktauth.Base.{ℕ, ◌+◌, ◌-◌, ◌≤◌, ◌<◌, List, ◌∷◌, ◌++◌, ◌≡◌, refl, ap, ◌∙◌, sym, subst, arith}
use pktauth.Base.{
  Run, done, panic, Result, ok, err, bit_or, ltb, eq→==, Bool-cases, true, false, inl, inr,
}
use pktauth.Base.{length, replicate, take_more, length-append, length-replicate}
use pktauth.Base.Bytes.{to_be_bytes}
use pktauth.Base.Bits.{bit_or-disjoint}
use pktauth.Blaster.Template.{InitialTemplate, TemplateError, below_minimum, no_datagram, resize}
use pktauth.Blaster.Template.{new, lay_out, before_length, packet_number_len}

-- What follows the destination connection ID in an Initial of `size` bytes: the source connection
-- ID behind its length, no token, the length field, the packet number and the payload.
abbrev pub trailer : ℕ → List ℕ
trailer size =
    20
    ∷ (replicate 20 0x5a
        ++ (0
            ∷ (to_be_bytes 2 (0x4000 + (size - 50))
                ++ (replicate 4 0 ++ replicate (size - 54) 0x42))))

-- A template of `size` bytes with `dcid` as the destination connection ID.
pub record IsInitial (size : ℕ) (dcid : List ℕ) (template : InitialTemplate) : Type 0 where
  pub offset : template.dcid_offset ≡ 6
  pub size_dcid : length dcid ≡ 20
  pub size_bytes : length template.bytes ≡ size
  pub layout : template.bytes ≡ 0xc3 ∷ 0 ∷ 0 ∷ 0 ∷ 1 ∷ 20 ∷ (dcid ++ trailer size)

-- The ends that `new` comes to, and the sizes at which it does.
pub data Outcome (size : ℕ) : Run (Result InitialTemplate TemplateError) → Type 0 where
  too_small : size < 1200 → Outcome size (done (err (below_minimum size)))
  too_large : 65535 < size → Outcome size (done (err (no_datagram size)))
  built :
      1200 ≤ size
      → size < 16434
      → (template : InitialTemplate) → IsInitial size (replicate 20 0) template
      → Outcome size (done (ok template))
  aborted : 16434 ≤ size → size ≤ 65535 → Outcome size panic

numbered : ℕ → List ℕ
numbered len = before_length ++ (to_be_bytes 2 (bit_or 0x4000 len) ++ replicate packet_number_len 0)

length_field : (len : ℕ) → len < 0x4000 → bit_or 0x4000 len ≡ 0x4000 + len
length_field len h = bit_or-disjoint 14 1 len h

resized :
    (size : ℕ)
    → 54 ≤ size
    → resize (numbered (size - 50)) size 0x42 ≡ numbered (size - 50) ++ replicate (size - 54) 0x42
unfolding numbered
resized size h = ap (λ t. t ++ replicate (size - 54) 0x42) (take_more (numbered (size - 50)) size h)

length-resized : (size : ℕ) → 54 ≤ size → length (resize (numbered (size - 50)) size 0x42) ≡ size
unfolding numbered
length-resized size h =
    ap length (resized size h)
    ∙ omega (
      arith,
      length-append {A = ℕ} (numbered (size - 50)) (replicate (size - 54) 0x42),
      length-replicate {A = ℕ} (size - 54) 0x42,
    )

resized_layout :
    (size : ℕ)
    → 54 ≤ size
    → size < 16434
    → resize (numbered (size - 50)) size 0x42
      ≡ 0xc3 ∷ 0 ∷ 0 ∷ 0 ∷ 1 ∷ 20 ∷ (replicate 20 0 ++ trailer size)
unfolding numbered
resized_layout size h below =
    resized size h
    ∙ ap (λ t. before_length ++ (to_be_bytes 2 t ++ (replicate 4 0 ++ replicate (size - 54) 0x42)))
        (length_field (size - 50) (omega arith))

initial : ℕ → InitialTemplate
initial size = record { bytes = resize (numbered (size - 50)) size 0x42; dcid_offset = 6 }

lay_out_built :
    (size : ℕ) → 1200 ≤ size → size < 16434 → lay_out size (size - 50) ≡ done (ok (initial size))
unfolding initial numbered
lay_out_built size h below = ground (
  arith,
  eq→== (length (resize (numbered (size - 50)) size 0x42)) size (length-resized size (omega arith)),
)

new_built : (size : ℕ) → 1200 ≤ size → size < 16434 → new size ≡ done (ok (initial size))
unfolding new
new_built size h below = ground (arith, lay_out_built size h below)

new_aborted : (size : ℕ) → 16434 ≤ size → size ≤ 65535 → new size ≡ panic
unfolding new
new_aborted size h below = ground arith

new_small : (size : ℕ) → ltb size 1200 ≡ true → new size ≡ done (err (below_minimum size))
unfolding new
new_small size small = ground arith

new_large :
    (size : ℕ)
    → ltb size 1200 ≡ false
    → ltb 65535 size ≡ true
    → new size ≡ done (err (no_datagram size))
unfolding new
new_large size enough large = ground arith

initial-IsInitial :
    (size : ℕ) → 1200 ≤ size → size < 16434 → IsInitial size (replicate 20 0) (initial size)
unfolding initial
initial-IsInitial size low high = record {
  offset = refl;
  size_dcid = refl;
  size_bytes = length-resized size (omega arith);
  layout = resized_layout size (omega arith) high;
}

-- `new` on every size: below 1200 and above 65535 it is refused with an error, up to 16433 it is
-- laid out as an Initial of that size, and between these the assertion on the length field panics.
pub new-Outcome : (size : ℕ) → Outcome size (new size)
new-Outcome size = elim (Bool-cases (ltb size 1200)) [
  | inl small ↦ subst (Outcome size) (sym (new_small size small)) (too_small (ground arith))
  | inr enough ↦ elim (Bool-cases (ltb 65535 size)) [
    | inl large ↦
        subst (Outcome size) (sym (new_large size enough large)) (too_large (ground arith))
    | inr fits ↦ elim (Bool-cases (ltb size 16434)) [
      | inl short ↦
          let low : 1200 ≤ size = ground arith in
          let high : size < 16434 = ground arith in
          subst (Outcome size) (sym (new_built size low high))
            (built low high (initial size) (initial-IsInitial size low high))
      | inr long ↦
          let low : 16434 ≤ size = ground arith in
          let high : size ≤ 65535 = ground arith in
          subst (Outcome size) (sym (new_aborted size low high)) (aborted low high)
    ]
  ]
]
