-- ===== src/Blaster/Tests.antt =====
-- Runs of the load generator, and the theorems at them.
use pktauth.Base.{
  ℕ, List, [], ◌∷◌, ◌++◌, ◌≡◌, refl, Result, ok, err, done, panic, length, replicate, true, false,
}
use pktauth.Base.Bytes.{to_be_bytes, length-to_be_bytes}
use pktauth.Socket.Counters.{ErrorKind}
use pktauth.Base.{none, ◌<◌, arith}
use pktauth.Blaster.Rates.{threads, per_thread_pps, Rate, per_thread_pps-Rate}
use pktauth.Blaster.Rng.{SplitMix64, next}
use pktauth.Blaster.Template.{InitialTemplate, new, below_minimum}
use pktauth.Blaster.Template.Outcome.{IsInitial, Outcome, trailer, new-Outcome}
use pktauth.Blaster.Template.Fresh.{Redrawn, randomize_dcid-Redrawn}
use pktauth.Blaster.Blast.{Stats, blast}
use pktauth.Base.{Run, some, get_elem?}
use pktauth.Base.Bytes.{to_be_bytes-injective}
use pktauth.Base.Slots.{get_elem?-lt}
use pktauth.Blaster.Blast.{Blasting, BlastError}
use pktauth.Blaster.Blast.Sound.{
  Blasted, blast-Blasted, refused_small, refused_large, stopped, crashed,
}
use pktauth.Blaster.Blast.Distinct.{blast-distinct}
use pktauth.Blaster.Startup.{Args, startup}
use pktauth.Blaster.Startup.Seeds.{StartupOutcome, startup-Outcome}

-- The first word of SplitMix64 from zero.
next_zero : (next (record { state = 0 })).0 ≡ 0xe220a8397b1dcdaf
unfolding next
next_zero = refl

new_undersized : new 1199 ≡ done (err (below_minimum 1199))
unfolding new
new_undersized = refl

new_oversized : new 16434 ≡ panic
unfolding new
new_oversized = refl

new-Outcome_example : Outcome 16434 (new 16434)
new-Outcome_example = new-Outcome 16434

-- The bytes of a word on a big-endian target.
abbrev pub big_endian : ℕ → List ℕ
big_endian w = to_be_bytes 8 w

abbrev pub zeroed : InitialTemplate
zeroed = record {
  bytes = 0xc3 ∷ 0 ∷ 0 ∷ 0 ∷ 1 ∷ 20 ∷ (replicate 20 0 ++ trailer 1200);
  dcid_offset = 6;
}

pub zeroed-IsInitial : IsInitial 1200 (replicate 20 0) zeroed
zeroed-IsInitial = record { offset = refl; size_dcid = refl; size_bytes = refl; layout = refl }

abbrev seeded : SplitMix64
seeded = record { state = 42 }

randomize_dcid-Redrawn_example : Redrawn big_endian (length-to_be_bytes 8) 1200 zeroed seeded
randomize_dcid-Redrawn_example =
    randomize_dcid-Redrawn big_endian (length-to_be_bytes 8) 1200 (replicate 20 0) zeroed seeded
      zeroed-IsInitial

abbrev pub takes_all : ℕ → List ℕ → Result ℕ ErrorKind
takes_all n bytes = ok (length bytes)

abbrev pub no_stats : Stats
no_stats = record { sent = 0; bytes = 0; errors = 0 }

blast-Blasted_example :
    Blasted big_endian
      (length-to_be_bytes 8)
      takes_all
      1200
      7
      (true ∷ false ∷ [])
      no_stats
      (blast big_endian takes_all (ok tt) (ok tt) 1200 7 (true ∷ false ∷ []) no_stats)
blast-Blasted_example =
    blast-Blasted big_endian (length-to_be_bytes 8) takes_all 1200 7 (true ∷ false ∷ []) no_stats

per_thread_pps-Rate_example :
    (0 < threads none (ok 8))
    × (rate : ℕ) × (per_thread_pps 1000 (threads none (ok 8)) ≡ done rate)
    × Rate 1000 (threads none (ok 8)) rate
per_thread_pps-Rate_example = per_thread_pps-Rate none (ok 8) 1000 (omega arith)

-- One packet a second asked for over eight threads is eight.
per_thread_pps_few : per_thread_pps 1 8 ≡ done 1
unfolding per_thread_pps
per_thread_pps_few = refl

-- One batch, as `blast` returns it.
pub batch_sent :
    (s : Blasting) × (blast big_endian takes_all (ok tt) (ok tt) 1200 7 (true ∷ []) no_stats
      ≡ done (ok s))
    × (length s.wire ≡ 64)
batch_sent =
    returned (blast-Blasted big_endian (length-to_be_bytes 8) takes_all 1200 7 (true ∷ []) no_stats)
  where
    returned :
        {r : Run (Result Blasting BlastError)}
        → Blasted big_endian (length-to_be_bytes 8) takes_all 1200 7 (true ∷ []) no_stats r
        → (s : Blasting) × (r ≡ done (ok s)) × (length s.wire ≡ 64)
    returned (refused_small h) = absurd (omega arith)
    returned (refused_large h) = absurd (omega arith)
    returned (stopped h k s sound) = (s, refl, sound.handed)
    returned (crashed h k) = absurd (omega arith)

pub tenth : (datagram : List ℕ) × (get_elem? batch_sent.0.wire 10 ≡ some datagram)
tenth = get_elem?-lt batch_sent.0.wire 10 (omega (arith, batch_sent.2))

abbrev place : ℕ
place = 10

blast-distinct_example : place ≡ place
blast-distinct_example =
    blast-distinct big_endian (length-to_be_bytes 8) to_be_bytes-injective takes_all 1200 7
      (true ∷ []) no_stats batch_sent.0 place place tenth.0 tenth.0 batch_sent.1 (omega arith)
      tenth.1 tenth.1 refl

abbrev three_threads : Args
three_threads = record { threads = some 3; size = 1200; pps = 10 }

abbrev pub spawns : ℕ → Result (Unit {0}) ErrorKind
spawns i = ok tt

startup-Outcome_example :
    StartupOutcome three_threads 3 spawns (startup three_threads (ok 8) spawns)
unfolding threads
startup-Outcome_example = startup-Outcome three_threads (ok 8) spawns (omega arith) (omega arith)
