-- ===== src/Ping/Payload.antt =====
-- src/lib.rs: `ping_payload`.
use pktauth.Base.{
  ℕ, zero, suc, ◌+◌, ◌-◌, ◌%◌, ◌^◌, ◌≤◌, ◌<◌, min, List, [], ◌∷◌, ◌++◌, ◌≡◌, refl, sym, ap, ◌∙◌,
}
use pktauth.Base.{Run, done, ◌>>=◌, expect, copy_from_slice, copy_from_slice-append, arith, some}
use pktauth.Base.{
  length, take, drop, slice, slice-some, replicate, length-replicate, length-take, take-append,
}
use pktauth.Base.{length-append, drop-append, append_injective, take_more}
use pktauth.Base.{ap₂}
use pktauth.Base.Slots.{take-min}
use pktauth.Base.Bytes.{to_be_bytes-injective, to_be_bytes, length-to_be_bytes}

-- `iter_mut().enumerate()` over the bytes behind the header, from index `i` on.
abbrev pub number_bytes : ℕ → List ℕ → List ℕ
number_bytes i [] = []
number_bytes i (_ ∷ bytes) = i % 251 ∷ number_bytes (suc i) bytes

unfoldable pub ping_payload : ℕ → ℕ → Run (List ℕ)
ping_payload seq size = do
  let payload = replicate size 0
  let seq_bytes = to_be_bytes 8 seq
  let header = min (length seq_bytes) size
  front ← expect (slice seq_bytes 0 header)
  with_header ← copy_from_slice payload 0 header front
  done (take header with_header ++ number_bytes 0 (drop header with_header))

replicate_split : (m n : ℕ) → replicate (m + n) 0 ≡ replicate {A = ℕ} m 0 ++ replicate n 0
replicate_split zero n = ap (λ k. replicate {A = ℕ} k 0) (omega arith)
replicate_split (suc m) n =
    let step : suc m + n ≡ suc (m + n) = omega arith in
    ap (λ k. replicate {A = ℕ} k 0) step ∙ ap (λ t. 0 ∷ t) (replicate_split m n)

-- `ping_payload` never panics: a payload is the sequence number, highest byte first and cut to the
-- size, and then the bytes that count up modulo 251.
ping_payload_layout :
    (seq size : ℕ)
    → ping_payload seq size
      ≡ done (take size (to_be_bytes 8 seq) ++ number_bytes 0 (replicate (size - 8) 0))
unfolding ping_payload
ping_payload_layout seq size =
    rw (front, written)
      (ap done (
        ap₂ (λ bytes behind. bytes ++ number_bytes 0 behind)
          (take-append short (replicate (size - 8) 0) header length_short
            ∙ take-min size (to_be_bytes 8 seq))
          (drop-append short (replicate (size - 8) 0) header length_short)))
  where
    header : ℕ
    header = min 8 size

    short : List ℕ
    short = take header (to_be_bytes 8 seq)

    length_short : length short ≡ header
    length_short = omega (arith, length-take header (to_be_bytes 8 seq), length-to_be_bytes 8 seq)

    front : slice (to_be_bytes 8 seq) 0 header ≡ some short
    front =
        let whole : header - 0 ≡ header = omega arith in
        slice-some (to_be_bytes 8 seq) 0 header (omega arith)
          (omega (arith, length-to_be_bytes 8 seq))
        ∙ ap (λ k. some (take k (to_be_bytes 8 seq))) whole

    written :
        copy_from_slice (replicate size 0) 0 header short ≡ done (short ++ replicate (size - 8) 0)
    written =
        let split : size ≡ header + (size - 8) = omega arith in
        ap (λ t. copy_from_slice t 0 header short)
          (ap (λ k. replicate {A = ℕ} k 0) split ∙ replicate_split header (size - 8))
        ∙ copy_from_slice-append [] (replicate header 0) (replicate (size - 8) 0) short 0 header
            refl (omega (arith, length-replicate {A = ℕ} header 0))
            (omega (arith, length-replicate {A = ℕ} header 0, length_short))

length-number_bytes : (i : ℕ) (bytes : List ℕ) → length (number_bytes i bytes) ≡ length bytes
length-number_bytes i [] = refl
length-number_bytes i (b ∷ bytes) = ap suc (length-number_bytes (suc i) bytes)

payload_of : ℕ → ℕ → List ℕ
payload_of seq size = take size (to_be_bytes 8 seq) ++ number_bytes 0 (replicate (size - 8) 0)

length-payload_of : (seq size : ℕ) → length (payload_of seq size) ≡ size
unfolding payload_of
length-payload_of seq size = omega (
  arith,
  length-append (take size (to_be_bytes 8 seq)) (number_bytes 0 (replicate (size - 8) 0)),
  length-take size (to_be_bytes 8 seq),
  length-to_be_bytes 8 seq,
  length-number_bytes 0 (replicate (size - 8) 0),
  length-replicate {A = ℕ} (size - 8) 0,
)

-- A payload of the size asked for.
pub ping_payload-length :
    (seq size : ℕ)
    → (payload : List ℕ) × (ping_payload seq size ≡ done payload) × (length payload ≡ size)
unfolding payload_of
ping_payload-length seq size =
    (payload_of seq size, ping_payload_layout seq size, length-payload_of seq size)

-- Payloads of one size from eight bytes on tell all sequence numbers of 64 bits apart, so an echo
-- of one ping is never taken for the echo of another.
pub ping_payload-distinct :
    (seq seq' size : ℕ)
    → 8 ≤ size
    → seq < 2 ^ 64
    → seq' < 2 ^ 64
    → ping_payload seq size ≡ ping_payload seq' size
    → seq ≡ seq'
unfolding payload_of
ping_payload-distinct seq seq' size enough h h' e =
    let same : payload_of seq size ≡ payload_of seq' size =
      cc (ping_payload_layout seq size, ping_payload_layout seq' size, e) in
    let parts =
      append_injective _ _ _ _
        (omega (arith, length-take size (to_be_bytes 8 seq), length-take size (to_be_bytes 8 seq')))
        same in
    to_be_bytes-injective seq seq' h h' (
      sym (take_more (to_be_bytes 8 seq) size enough)
      ∙ parts.0
      ∙ take_more (to_be_bytes 8 seq') size enough)
