-- ===== src/Blaster/Template.antt =====
-- src/bin/blaster.rs: `InitialTemplate`. A `String` error is the case of the message and what it
-- is formatted with.
pub mod Outcome
pub mod Fresh
use pktauth.Base.{ℕ, ◌+◌, ◌-◌, List, [], ◌∷◌, ◌++◌, Option, none, some, bit_or, ltb, leb, ◌==◌}
use pktauth.Base.{Run, done, panic, ◌>>=◌, expect, copy_from_slice, Result, ok, err}
use pktauth.Base.{length, take, drop, slice, replicate, if◌then◌else◌}
use pktauth.Base.Bytes.{to_be_bytes}
use pktauth.Base.Chunks.{chunks, concat}
use pktauth.Auth.Direction.{token_len}
use pktauth.Blaster.Rng.{SplitMix64, next}

abbrev pub min_initial_datagram : ℕ
min_initial_datagram = 1200

abbrev pub packet_number_len : ℕ
packet_number_len = 4

pub data TemplateError : Type 0 where
  below_minimum no_datagram no_header long_length : ℕ → TemplateError

pub record InitialTemplate : Type 0 where
  pub bytes : List ℕ
  pub dcid_offset : ℕ

abbrev pub checked_sub : ℕ → ℕ → Option ℕ
checked_sub a b = if leb b a then some (a - b) else none

abbrev pub u16_try_from : ℕ → Option ℕ
u16_try_from n = if leb n 0xffff then some n else none

-- `Vec::resize`.
abbrev pub resize : List ℕ → ℕ → ℕ → List ℕ
resize bytes size byte = take size bytes ++ replicate (size - length bytes) byte

-- The header up to the length of the destination connection ID, and up to the token length.
abbrev pub before_dcid : List ℕ
before_dcid = 0xc3 ∷ (to_be_bytes 4 1 ++ (token_len ∷ []))

abbrev pub before_length : List ℕ
before_length =
    before_dcid ++ (replicate token_len 0 ++ (token_len ∷ (replicate token_len 0x5a ++ (0 ∷ []))))

-- From the length field on.
abbrev pub lay_out : ℕ → ℕ → Run (Result InitialTemplate TemplateError)
lay_out size len =
    if ltb len 0x4000
    then (let numbered =
          before_length ++ (to_be_bytes 2 (bit_or 0x4000 len) ++ replicate packet_number_len 0) in
        let bytes = resize numbered size 0x42 in
        if length bytes == size
        then done (ok (record { bytes = bytes; dcid_offset = length before_dcid }))
        else panic)
    else panic

unfoldable pub new : ℕ → Run (Result InitialTemplate TemplateError)
new size =
    if ltb size min_initial_datagram
    then done (err (below_minimum size))
    else if ltb 0xffff size
    then done (err (no_datagram size))
    else elim (checked_sub size (length before_length + 2)) [
      | none ↦ done (err (no_header size))
      | some remaining ↦ elim (u16_try_from remaining) [
        | none ↦ done (err (long_length size))
        | some len ↦ lay_out size len
      ]
    ]

-- The bytes of a word in the target's order, `u64::to_ne_bytes`, are an argument.
module _ (to_ne_bytes : ℕ → List ℕ) where
  -- The loop over the chunks of the connection ID.
  unfoldable pub fill_chunks : List (List ℕ) → SplitMix64 → Run (List (List ℕ) × SplitMix64)
  fill_chunks [] rng = done ([], rng)
  fill_chunks (chunk ∷ rest) rng = do
    let (word, rng') = next rng
    front ← expect (slice (to_ne_bytes word) 0 (length chunk))
    filled ← copy_from_slice chunk 0 (length chunk) front
    (others, rng'') ← fill_chunks rest rng'
    done (filled ∷ others, rng'')

  unfoldable pub randomize_dcid : InitialTemplate → SplitMix64 → Run (InitialTemplate × SplitMix64)
  randomize_dcid template rng = do
    let lo = template.dcid_offset
    dcid ← expect (slice template.bytes lo (lo + token_len))
    parts ← chunks 8 dcid
    (filled, rng') ← fill_chunks parts rng
    let bytes = take lo template.bytes ++ (concat filled ++ drop (lo + token_len) template.bytes)
    done (record template { bytes = bytes }, rng')
