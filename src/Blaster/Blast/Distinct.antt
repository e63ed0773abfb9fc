-- ===== src/Blaster/Blast/Distinct.antt =====
-- The connection IDs of one sender thread do not repeat.
use pktauth.Base.{ℕ, zero, suc, ◌-◌, ◌*◌, ◌%◌, ◌^◌, ◌≤◌, ◌<◌, List, [], ◌∷◌, ◌≡◌, ap, sym, ◌∙◌}
use pktauth.Base.{arith, Bool, some, done, Result, ok, length, get_elem?, append_injective}
use pktauth.Base.Slots.{lt-get_elem?}
use pktauth.Auth.Cid.{destination_cid}
use pktauth.Socket.Counters.{ErrorKind}
use pktauth.Blaster.Rng.{SplitMix64, next}
use pktauth.Blaster.Rng.Words.{after, next-lt, same_word}
use pktauth.Blaster.Template.Fresh.{fresh_cid}
use pktauth.Blaster.Blast.{Blasting, Stats, blast}
use pktauth.Blaster.Blast.Sound.{Blasted-IsSound, blast-Blasted}
use pktauth.Blaster.Blast.Wire.{IsDrawn, batches}

module _ (to_ne_bytes : ℕ → List ℕ) (length-to_ne_bytes : (w : ℕ) → length (to_ne_bytes w) ≡ 8)
    (to_ne_bytes_injective : (v w : ℕ)
      → v < 2 ^ 64
      → w < 2 ^ 64
      → to_ne_bytes v ≡ to_ne_bytes w
      → v ≡ w) where
  fresh_cid_injective :
      (rng rng' : SplitMix64)
      → fresh_cid to_ne_bytes rng ≡ fresh_cid to_ne_bytes rng'
      → (next rng).0 ≡ (next rng').0
  fresh_cid_injective rng rng' e =
      let fronts : to_ne_bytes (next rng).0 ≡ to_ne_bytes (next rng').0 =
        (append_injective (to_ne_bytes (next rng).0) (to_ne_bytes (next rng').0) _ _
          (length-to_ne_bytes (next rng).0 ∙ sym (length-to_ne_bytes (next rng').0)) e).0 in
      to_ne_bytes_injective (next rng).0 (next rng').0 (next-lt rng) (next-lt rng') fronts

  -- Draws at two places below 2 ^ 64 give two connection IDs.
  fresh_cid-distinct :
      (seed : SplitMix64) (i j : ℕ)
      → i < 2 ^ 64
      → j < 2 ^ 64
      → fresh_cid to_ne_bytes (after (3 * i) seed) ≡ fresh_cid to_ne_bytes (after (3 * j) seed)
      → i ≡ j
  fresh_cid-distinct seed i j hi hj e =
      let thrice : 3 * i % 2 ^ 64 ≡ 3 * j % 2 ^ 64 =
        same_word (3 * i) (3 * j) seed
          (fresh_cid_injective (after (3 * i) seed) (after (3 * j) seed) e) in
      omega (arith, thrice)

  IsDrawn-get_elem? :
      (seed : SplitMix64) (wire : List (List ℕ)) (p : ℕ) {datagram : List ℕ}
      → IsDrawn to_ne_bytes seed wire
      → get_elem? wire p ≡ some datagram
      → destination_cid datagram
        ≡ some (fresh_cid to_ne_bytes (after (3 * (length wire - 1 - p)) seed))
  IsDrawn-get_elem? seed [] p drawn e = cc
  IsDrawn-get_elem? seed (d ∷ wire) zero drawn e =
      let here : length wire ≡ suc (length wire) - 1 - zero = omega arith in
      sym (ap destination_cid (cc e))
      ∙ drawn.0
      ∙ ap (λ n. some (fresh_cid to_ne_bytes (after (3 * n) seed))) here
  IsDrawn-get_elem? seed (d ∷ wire) (suc p) drawn e =
      let further : length wire - 1 - p ≡ suc (length wire) - 1 - suc p = omega arith in
      IsDrawn-get_elem? seed wire p drawn.1 e
      ∙ ap (λ n. some (fresh_cid to_ne_bytes (after (3 * n) seed))) further

  -- One sender thread hands over no connection ID twice, in up to 2 ^ 58 batches: two places of its
  -- wire with the same ID are one place. The words' bytes are eight each, and different words of 64
  -- bits have different bytes.
  pub blast-distinct :
      (send : ℕ → List ℕ → Result ℕ ErrorKind) (size seed : ℕ) (running : List Bool) (stats : Stats)
      (s : Blasting) (p q : ℕ) (datagram datagram' : List ℕ)
      → blast to_ne_bytes send (ok tt) (ok tt) size seed running stats ≡ done (ok s)
      → batches running ≤ 2 ^ 58
      → get_elem? s.wire p ≡ some datagram
      → get_elem? s.wire q ≡ some datagram'
      → destination_cid datagram ≡ destination_cid datagram'
      → p ≡ q
  blast-distinct send size seed running stats s p q datagram datagram' e few at_p at_q same =
      let sound =
        Blasted-IsSound to_ne_bytes length-to_ne_bytes send size seed running stats s
          (blast-Blasted to_ne_bytes length-to_ne_bytes send size seed running stats) e in
      let found_p = IsDrawn-get_elem? (record { state = seed }) s.wire p sound.drawn at_p in
      let found_q = IsDrawn-get_elem? (record { state = seed }) s.wire q sound.drawn at_q in
      let places : length s.wire - 1 - p ≡ length s.wire - 1 - q =
        fresh_cid-distinct (record { state = seed }) (length s.wire - 1 - p) (length s.wire - 1 - q)
          (omega (arith, sound.handed)) (omega (arith, sound.handed))
          (cc (found_p, found_q, same)) in
      omega (arith, places, lt-get_elem? s.wire p at_p, lt-get_elem? s.wire q at_q)
