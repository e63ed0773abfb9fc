-- ===== src/Blaster/Main/Tests.antt =====
-- Two threads that are stopped after a batch, and a thread that cannot be started.
use pktauth.Base.{ℕ, ◌%◌, ◌^◌, [], ◌∷◌, ◌++◌, ◌≡◌, refl, some, ok, err, done, Result, zero, suc}
use pktauth.Base.Actions.{failed, returned as returns}
use pktauth.Socket.Counters.{ErrorKind, other}
use pktauth.Blaster.Rng.{next}
use pktauth.Blaster.Template.{new}
use pktauth.Blaster.Rates.{threads, per_thread_pps}
use pktauth.Blaster.Blast.{io}
use pktauth.Blaster.Startup.{Args, Started, startup, start_workers}
use pktauth.Blaster.Tests.{big_endian, zeroed, spawns}
use pktauth.Blaster.Workers.Tests.{joined, until_joined}
use pktauth.Blaster.Workers.Accounted.{taken, taken_bytes, refused}
use pktauth.Blaster.Main.{
  World, time_over, returned, announced, launched, printed, launch, blaster_main,
}
use pktauth.Blaster.Main.Ends.{Ends, blaster_main-Ends}
use pktauth.Blaster.Main.Sums.{before_summary, blaster_main-Sums}

abbrev two_threads : Args
two_threads = record { threads = some 2; size = 1200; pps = 10 }

abbrev both : Started
both = record { rate = 5; seeds = 3220344897584144929 ∷ 10671001446143789449 ∷ [] }

abbrev world : World
world = record {
  available = ok 8;
  spawn = spawns;
  ended = time_over;
  join = λ i. returned (ok tt);
  stats = joined.shared.stats;
}

starts : startup two_threads world.available world.spawn ≡ done (ok both)
unfolding startup new threads per_thread_pps start_workers next
starts = refl

made : new 1200 ≡ done (ok zeroed)
unfolding new
made = refl

abbrev only_first : ℕ → Result (Unit {0}) ErrorKind
only_first zero = ok tt
only_first (suc i) = err other

-- The second thread cannot be started.
one_started : blaster_main (record world { spawn = only_first }) two_threads ≡ record {
  log = announced 1200 2 10 ∷ launched 0 5 3220344897584144929 ∷ [];
  exit = failed (io other);
}
unfolding blaster_main new threads per_thread_pps launch next
one_started = refl

blaster_main-Ends_example : Ends world two_threads (blaster_main world two_threads)
blaster_main-Ends_example = blaster_main-Ends world two_threads

blaster_main-Sums_example : blaster_main world two_threads ≡ record {
  log =
      before_summary world two_threads both
      ++ (printed (record {
        sent = taken joined.shared.answers % 2 ^ 64;
        bytes = taken_bytes joined.shared.answers % 2 ^ 64;
        errors = refused joined.shared.answers % 2 ^ 64;
      })
          ∷ []);
  exit = returns tt;
}
blaster_main-Sums_example =
    blaster_main-Sums world two_threads both starts refl big_endian zeroed _ joined made
      until_joined.1 (refl, (refl, tt)) refl
