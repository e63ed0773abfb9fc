-- ===== src/Blaster/Main.antt =====
-- src/bin/blaster.rs: `main`, by what it does. What the operating system answers is an argument, and
-- so are the ends of the threads and what the statistics hold when `main` reads them. The text of
-- the printed lines, and with it the time that has passed, is left out.
pub mod Threads
pub mod Ends
pub mod Sums
mod Tests
use pktauth.Base.{ℕ, zero, suc, ◌+◌, List, Result, ok, err}
use pktauth.Base.Actions.{Ran, pure, act, ◌>>=◌, ◌>>◌, try_with, run}
use pktauth.Socket.Counters.{ErrorKind}
use pktauth.Blaster.Rng.{SplitMix64, next}
use pktauth.Blaster.Template.{new}
use pktauth.Blaster.Rates.{threads, per_thread_pps}
use pktauth.Blaster.Blast.{Stats, BlastError, io, template}
use pktauth.Blaster.Startup.{Args, first_seed}

-- How the `select!` ends: the time is over, or a signal came, or waiting for it failed.
pub data Ended : Type 0 where
  time_over : Ended
  interrupted : Result (Unit {0}) ErrorKind → Ended

-- What `join` answers of a thread.
pub data Joined : Type 0 where
  returned : Result (Unit {0}) BlastError → Joined
  thread_panicked : Joined

-- What is answered to the program; the threads are numbered.
pub record World : Type 0 where
  pub available : Result ℕ ErrorKind
  pub spawn : ℕ → Result (Unit {0}) ErrorKind
  pub ended : Ended
  pub join : ℕ → Joined
  pub stats : Stats

-- What the program does.
pub data Act : Type 0 where
  announced : (size threads pps : ℕ) → Act
  launched : (i rate seed : ℕ) → Act
  reporting : Act
  cleared : Act
  aborted : Act
  joined : (i : ℕ) → Act
  sender_failed : BlastError → Act
  sender_panicked : Act
  printed : Stats → Act

abbrev pub Doing : Type 0 → Type 0
Doing A = Ran Act BlastError A

-- The line about a thread that did not end well.
abbrev pub complain : Joined → Doing (Unit {0})
complain (returned (ok _)) = pure tt
complain (returned (err e)) = act (sender_failed e)
complain thread_panicked = act sender_panicked

-- The `select!`.
abbrev pub wait : Ended → Doing (Unit {0})
wait time_over = pure tt
wait (interrupted answer) = try_with io answer

module _ (world : World) where
  -- The threads from the `i`-th on.
  unfoldable pub launch : ℕ → ℕ → ℕ → SplitMix64 → Doing (Unit {0})
  launch rate i zero rng = pure tt
  launch rate i (suc count) rng = do
    let (seed, rng') = next rng
    try_with io (world.spawn i)
    act (launched i rate seed)
    launch rate (i + 1) count rng'

  unfoldable pub join_all : ℕ → ℕ → Doing (Unit {0})
  join_all i zero = pure tt
  join_all i (suc count) = do act (joined i); complain (world.join i); join_all (i + 1) count

  -- After the threads are started.
  unfoldable pub wait_and_join : ℕ → Doing (Unit {0})
  wait_and_join count = do
    act reporting
    wait world.ended
    act cleared
    act aborted
    join_all 0 count
    act (printed world.stats)

  unfoldable pub blaster_main : Args → Doing (Unit {0})
  blaster_main args = do
    tried ← run (new args.size)
    _ ← try_with template tried
    let count = threads args.threads world.available
    rate ← run (per_thread_pps args.pps count)
    act (announced args.size count args.pps)
    launch rate 0 count first_seed
    wait_and_join count
