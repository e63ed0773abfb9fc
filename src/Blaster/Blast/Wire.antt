-- ===== src/Blaster/Blast/Wire.antt =====
-- What a sender thread's datagrams and state should be.
use pktauth.Base.{ℕ, suc, ◌+◌, ◌*◌, ◌%◌, ◌^◌, List, [], ◌∷◌, ◌++◌, ◌≡◌}
use pktauth.Base.{Bool, true, false, some, length, All}
use pktauth.Auth.Cid.{destination_cid}
use pktauth.Blaster.Rng.Words.{after}
use pktauth.Blaster.Rng.{SplitMix64}
use pktauth.Blaster.Template.Outcome.{IsInitial, trailer}
use pktauth.Blaster.Template.Fresh.{fresh_cid}
use pktauth.Blaster.Blast.{Blasting, Stats}

-- A datagram of the size asked for, in which the parser finds a connection ID of a token's length.
abbrev pub IsProbe : ℕ → List ℕ → Type 0
IsProbe size datagram =
    (length datagram ≡ size)
    × (cid : List ℕ) × (length cid ≡ 20)
    × (destination_cid datagram ≡ some cid)

-- The attempts that the statistics count.
abbrev pub attempts : Stats → ℕ
attempts stats = stats.sent + stats.errors

-- The batches that a list of loads of the stop flag allows.
abbrev pub batches : List Bool → ℕ
batches [] = 0
batches (false ∷ _) = 0
batches (true ∷ running) = suc (batches running)

module _ (to_ne_bytes : ℕ → List ℕ) where
  -- The datagrams that a thread of the generator `seed` handed over, last first: the n-th carries
  -- the connection ID drawn after n draws of three words.
  abbrev pub IsDrawn : SplitMix64 → List (List ℕ) → Type 0
  IsDrawn seed [] = Unit
  IsDrawn seed (datagram ∷ wire) =
      (destination_cid datagram ≡ some (fresh_cid to_ne_bytes (after (3 * length wire) seed)))
      × IsDrawn seed wire

  -- An Initial of `size` bytes with a connection ID that a generator gave.
  abbrev pub IsLaid : ℕ → List ℕ → Type 0
  IsLaid size datagram =
      (rng : SplitMix64) × (datagram
        ≡ 0xc3 ∷ 0 ∷ 0 ∷ 0 ∷ 1 ∷ 20 ∷ (fresh_cid to_ne_bytes rng ++ trailer size))

  -- A thread that began with the generator `seed` and the statistics `start`, and has made `n`
  -- attempts.
  pub record IsSound (size : ℕ) (seed : SplitMix64) (start : Stats) (n : ℕ) (s : Blasting)
      : Type 0 where
    pub dcid : List ℕ
    pub initial : IsInitial size dcid s.initial
    pub handed : length s.wire ≡ n
    pub probes : All (IsProbe size) s.wire
    pub laid : All (IsLaid size) s.wire
    pub place : s.rng ≡ after (3 * length s.wire) seed
    pub drawn : IsDrawn seed s.wire
    pub counted : attempts s.stats % 2 ^ 64 ≡ (attempts start + n) % 2 ^ 64
