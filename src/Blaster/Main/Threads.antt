-- ===== src/Blaster/Main/Threads.antt =====
-- Starting and joining the threads.
use pktauth.Base.{ℕ, zero, suc, ◌+◌, List, [], ◌∷◌, ◌++◌, ◌≡◌, refl, sym, ap, ◌∙◌, arith, length}
use pktauth.Base.{Result, ok, err}
use pktauth.Base.Actions.{returned as returns, failed, act, ◌>>◌, try_with}
use pktauth.Socket.Counters.{ErrorKind}
use pktauth.Blaster.Rng.{SplitMix64, next}
use pktauth.Blaster.Blast.{io}
use pktauth.Blaster.Startup.{start_workers}
use pktauth.Blaster.Main.{Joined, returned, thread_panicked, World, Act, Doing}
use pktauth.Blaster.Main.{launched, joined, sender_failed, sender_panicked}
use pktauth.Blaster.Main.{complain, launch, join_all}

-- The threads from the `i`-th on, one for each seed.
abbrev pub launches : ℕ → ℕ → List ℕ → List Act
launches rate i [] = []
launches rate i (seed ∷ seeds) = launched i rate seed ∷ launches rate (i + 1) seeds

-- One line for each thread that did not end well.
abbrev pub complaint : Joined → List Act
complaint (returned (ok _)) = []
complaint (returned (err e)) = sender_failed e ∷ []
complaint thread_panicked = sender_panicked ∷ []

-- Every thread is joined, in the order in which they were started.
abbrev pub joining : (ℕ → Joined) → ℕ → ℕ → List Act
joining join i zero = []
joining join i (suc count) = joined i ∷ (complaint (join i) ++ joining join (i + 1) count)

-- What came of starting the threads, and of `start_workers` with it.
pub data Launched (world : World) (rate i count : ℕ)
    : Result (List ℕ) ErrorKind → Doing (Unit {0}) → Type 0 where
  all_launched :
      (seeds : List ℕ)
      → length seeds ≡ count
      → Launched world rate i count
          (ok seeds)
          (record { log = launches rate i seeds; exit = returns tt })
  cut_short :
      (seeds : List ℕ) (kind : ErrorKind)
      → world.spawn (i + length seeds) ≡ err kind
      → Launched world rate i count
          (err kind)
          (record { log = launches rate i seeds; exit = failed (io kind) })

module _ (world : World) where
  Launched-suc :
      (rate i count seed : ℕ) {rest : Result (List ℕ) ErrorKind} {m : Doing (Unit {0})}
      → Launched world rate (i + 1) count rest m
      → Launched world rate i
          (suc count)
          (elim rest [ err kind ↦ err kind | ok seeds ↦ ok (seed ∷ seeds) ])
          (act (launched i rate seed) >> m)
  Launched-suc rate i count seed (all_launched seeds size) =
      all_launched (seed ∷ seeds) (ap suc size)
  Launched-suc rate i count seed (cut_short seeds kind e) =
      let place : i + 1 + length seeds ≡ i + suc (length seeds) = omega arith in
      cut_short (seed ∷ seeds) kind (sym (ap world.spawn place) ∙ e)

  -- One more thread, by what its start answers.
  launch-next :
      (rate i left : ℕ) (rng : SplitMix64) (answer : Result (Unit {0}) ErrorKind)
      → world.spawn i ≡ answer
      → Launched world rate
          (i + 1)
          left
          (start_workers world.spawn (i + 1) left (next rng).1)
          (launch world rate (i + 1) left (next rng).1)
      → Launched world rate i
          (suc left)
          (elim answer [
            | err kind ↦ err kind
            | ok _ ↦ elim (start_workers world.spawn (i + 1) left (next rng).1) [
              | err kind ↦ err kind
              | ok seeds ↦ ok ((next rng).0 ∷ seeds)
            ]
          ])
          (try_with io answer
            >> (act (launched i rate (next rng).0) >> launch world rate (i + 1) left (next rng).1))
  launch-next rate i left rng (ok _) e rest = Launched-suc rate i left (next rng).0 rest
  launch-next rate i left rng (err kind) e rest =
      let here : i + 0 ≡ i = omega arith in cut_short [] kind (ap world.spawn here ∙ e)

  pub launch-Launched :
      (rate i left : ℕ) (rng : SplitMix64)
      → Launched world rate i left
          (start_workers world.spawn i left rng)
          (launch world rate i left rng)
  unfolding start_workers launch
  launch-Launched rate i zero rng = all_launched [] refl
  launch-Launched rate i (suc left) rng =
      launch-next rate i left rng (world.spawn i) refl
        (launch-Launched rate (i + 1) left (next rng).1)

  complain-lem :
      (i : ℕ) (answer : Joined) (rest : List Act)
      → act (joined i) >> (complain answer >> record { log = rest; exit = returns tt })
        ≡ record { log = joined i ∷ (complaint answer ++ rest); exit = returns tt }
  complain-lem i (returned (ok _)) rest = refl
  complain-lem i (returned (err e)) rest = refl
  complain-lem i thread_panicked rest = refl

  pub join_all-lem :
      (i left : ℕ)
      → join_all world i left ≡ record { log = joining world.join i left; exit = returns tt }
  unfolding join_all
  join_all-lem i zero = refl
  join_all-lem i (suc left) =
      rw (join_all-lem (i + 1) left)
        (complain-lem i (world.join i) (joining world.join (i + 1) left))
