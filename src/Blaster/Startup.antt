-- ===== src/Blaster/Startup.antt =====
-- src/bin/blaster.rs: what `main` does before it reports and waits: it tries the template, chooses
-- threads and rates, and starts the threads, each with a word of one generator as its seed. What
-- `spawn` answers for the i-th thread is an argument.
pub mod Seeds
use pktauth.Base.{ℕ, zero, suc, ◌+◌, List, [], ◌∷◌, Option, Run, done, ◌>>=◌, Result, ok, err}
use pktauth.Socket.Counters.{ErrorKind}
use pktauth.Blaster.Rng.{SplitMix64, next}
use pktauth.Blaster.Template.{new}
use pktauth.Blaster.Rates.{threads, per_thread_pps}
use pktauth.Blaster.Blast.{BlastError, io, template}

-- The arguments that decide what is started.
pub record Args : Type 0 where
  pub threads : Option ℕ
  pub size : ℕ
  pub pps : ℕ

abbrev pub first_seed : SplitMix64
first_seed = record { state = 0x243f6a8885a308d3 }

-- The seeds of the threads that were started, `count` of them from the `i`-th on, or the error of
-- the first thread that was not.
unfoldable pub start_workers :
    (ℕ → Result (Unit {0}) ErrorKind) → ℕ → ℕ → SplitMix64 → Result (List ℕ) ErrorKind
start_workers spawn i zero rng = ok []
start_workers spawn i (suc count) rng =
    let (seed, rng') = next rng in
    elim (spawn i) [
      | err kind ↦ err kind
      | ok _ ↦ elim (start_workers spawn (i + 1) count rng') [
        | err kind ↦ err kind
        | ok seeds ↦ ok (seed ∷ seeds)
      ]
    ]

-- What runs after that: the rate of each thread, and their seeds.
pub record Started : Type 0 where
  pub rate : ℕ
  pub seeds : List ℕ

unfoldable pub startup :
    Args → Result ℕ ErrorKind → (ℕ → Result (Unit {0}) ErrorKind) → Run (Result Started BlastError)
startup args available spawn = do
  tried ← new args.size
  elim tried [
    | err e ↦ done (err (template e))
    | ok _ ↦ do
      let count = threads args.threads available
      rate ← per_thread_pps args.pps count
      done (elim (start_workers spawn 0 count first_seed) [
        | err kind ↦ err (io kind)
        | ok seeds ↦ ok (record { rate = rate; seeds = seeds })
      ])
  ]
