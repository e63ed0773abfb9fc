-- ===== src/Blaster/Startup/Seeds.antt =====
-- The threads that `main` starts.
use pktauth.Base.{
  ℕ, zero, suc, ◌+◌, ◌^◌, ◌≤◌, ◌<◌, List, [], ◌∷◌, ◌≡◌, refl, sym, ap, ◌∙◌, subst, arith,
}
use pktauth.Base.{
  Run, done, panic, ◌>>=◌, Result, ok, err, some, length, get_elem?, Result-cases, inl, inr, All,
  ◌%◌,
}
use pktauth.Base.Slots.{lt-get_elem?, All-at}
use pktauth.Socket.Counters.{ErrorKind}
use pktauth.Blaster.Rng.{SplitMix64, next}
use pktauth.Blaster.Rng.Words.{after, same_word}
use pktauth.Blaster.Template.{InitialTemplate, TemplateError, below_minimum, no_datagram}
use pktauth.Blaster.Template.Outcome.{
  IsInitial, Outcome, new-Outcome, too_small, too_large, built, aborted,
}
use pktauth.Blaster.Rates.{threads, per_thread_pps, machine_threads, Rate, per_thread_pps-Rate}
use pktauth.Blaster.Blast.{BlastError, io, template}
use pktauth.Base.{replicate}
use pktauth.Blaster.Workers.{head, HasTemplate, IsStart, workers_at_head, start_state}
use pktauth.Blaster.Startup.{Args, Started, first_seed, start_workers, startup}

-- What came of starting `count` threads from the `i`-th on: the seeds, the k-th being the k-th word
-- of the generator, or the error of a thread before which all were started.
data Spawned (spawn : ℕ → Result (Unit {0}) ErrorKind) (i count : ℕ) (rng : SplitMix64)
    : Result (List ℕ) ErrorKind → Type 0 where
  all_started :
      (seeds : List ℕ)
      → length seeds ≡ count
      → ((k seed : ℕ) → get_elem? seeds k ≡ some seed → seed ≡ (next (after k rng)).0)
      → Spawned spawn i count rng (ok seeds)
  not_started :
      (k : ℕ) (kind : ErrorKind)
      → k < count
      → spawn (i + k) ≡ err kind
      → Spawned spawn i count rng (err kind)

Spawned-suc :
    (spawn : ℕ → Result (Unit {0}) ErrorKind) (i count : ℕ) (rng : SplitMix64)
    {rest : Result (List ℕ) ErrorKind}
    → Spawned spawn (i + 1) count (next rng).1 rest
    → Spawned spawn i
        (suc count)
        rng
        (elim rest [ err kind ↦ err kind | ok seeds ↦ ok ((next rng).0 ∷ seeds) ])
Spawned-suc spawn i count rng (not_started k kind h e) =
    let place : i + 1 + k ≡ i + suc k = omega arith in
    not_started (suc k) kind (omega arith) (sym (ap spawn place) ∙ e)
Spawned-suc spawn i count rng (all_started seeds size words) =
    all_started ((next rng).0 ∷ seeds) (ap suc size) at
  where
    at :
        (k seed : ℕ)
        → get_elem? ((next rng).0 ∷ seeds) k ≡ some seed
        → seed ≡ (next (after k rng)).0
    at zero seed e = cc e
    at (suc k) seed e = words k seed e

start_workers-Spawned :
    (spawn : ℕ → Result (Unit {0}) ErrorKind) (i count : ℕ) (rng : SplitMix64)
    → Spawned spawn i count rng (start_workers spawn i count rng)
unfolding start_workers
start_workers-Spawned spawn i zero rng = all_started [] refl (λ k seed e. cc)
start_workers-Spawned spawn i (suc count) rng = elim (Result-cases (spawn i)) [
  | inr refused ↦
      let (kind, e) = refused in
      let here : i + 0 ≡ i = omega arith in
      subst (Spawned spawn i (suc count) rng) (sym (rw (start_workers, e) refl))
        (not_started 0 kind (omega arith) (ap spawn here ∙ e))
  | inl accepted ↦
      let (_, e) = accepted in
      subst (Spawned spawn i (suc count) rng) (sym (rw (start_workers, e) refl))
        (Spawned-suc spawn i count rng (start_workers-Spawned spawn (i + 1) count (next rng).1))
]

-- No two threads have one seed.
abbrev pub AreDistinct : List ℕ → Type 0
AreDistinct [] = Unit {0}
AreDistinct (seed ∷ seeds) = All (λ other. ¬ (seed ≡ other)) seeds × AreDistinct seeds

-- What `main` comes to with `count` threads.
pub data StartupOutcome (args : Args) (count : ℕ) (spawn : ℕ → Result (Unit {0}) ErrorKind)
    : Run (Result Started BlastError) → Type 0 where
  refused_small :
      args.size < 1200
      → StartupOutcome args count spawn (done (err (template (below_minimum args.size))))
  refused_large :
      65535 < args.size
      → StartupOutcome args count spawn (done (err (template (no_datagram args.size))))
  crashed : 16434 ≤ args.size → args.size ≤ 65535 → StartupOutcome args count spawn panic
  no_thread :
      (k : ℕ) (kind : ErrorKind)
      → k < count
      → spawn k ≡ err kind
      → StartupOutcome args count spawn (done (err (io kind)))
  running :
      (rate : ℕ) (seeds : List ℕ)
      → 1200 ≤ args.size
      → args.size < 16434
      → Rate args.pps count rate
      → length seeds ≡ count
      → AreDistinct seeds
      → (initial : InitialTemplate) → IsInitial args.size (replicate 20 0) initial
      → IsStart (start_state initial seeds)
      → StartupOutcome args count spawn (done (ok (record { rate = rate; seeds = seeds })))

-- Words of one generator at different places below 2 ^ 64 differ.
AreDistinct-words :
    (seeds : List ℕ) (rng : SplitMix64)
    → length seeds < 2 ^ 64
    → ((k seed : ℕ) → get_elem? seeds k ≡ some seed → seed ≡ (next (after k rng)).0)
    → AreDistinct seeds
AreDistinct-words [] rng few words = tt
AreDistinct-words (seed ∷ seeds) rng few words = (
  All-at (λ other. ¬ (seed ≡ other)) seeds
      (λ k other at same.
        let places : 0 % 2 ^ 64 ≡ suc k % 2 ^ 64 =
          same_word 0 (suc k) rng (sym (words 0 seed refl) ∙ same ∙ words (suc k) other at) in
        omega (arith, places, lt-get_elem? seeds k at)),
  AreDistinct-words seeds (next rng).1 (omega arith) (λ k other at. words (suc k) other at),
)

after_template :
    Args
    → ℕ
    → (ℕ → Result (Unit {0}) ErrorKind)
    → Result InitialTemplate TemplateError
    → Run (Result Started BlastError)
after_template args count spawn tried = elim tried [
  | err e ↦ done (err (template e))
  | ok _ ↦ do
    rate ← per_thread_pps args.pps count
    done (elim (start_workers spawn 0 count first_seed) [
      | err kind ↦ err (io kind)
      | ok seeds ↦ ok (record { rate = rate; seeds = seeds })
    ])
]

pub start_state-IsStart :
    (size : ℕ) (dcid : List ℕ) (initial : InitialTemplate) (seeds : List ℕ)
    → IsInitial size dcid initial
    → IsStart (start_state initial seeds)
start_state-IsStart size dcid initial seeds i = record {
  zeroed = refl;
  unsent = refl;
  waiting = all_head seeds;
  prepared = all_prepared seeds;
}
  where
    all_head : (seeds : List ℕ) → All (λ w. w.pc ≡ head) (workers_at_head initial seeds)
    all_head [] = tt
    all_head (seed ∷ seeds) = (refl, all_head seeds)

    all_prepared : (seeds : List ℕ) → All HasTemplate (workers_at_head initial seeds)
    all_prepared [] = tt
    all_prepared (seed ∷ seeds) = ((size, dcid, i), all_prepared seeds)

start_all :
    (args : Args) (count : ℕ) (spawn : ℕ → Result (Unit {0}) ErrorKind) (rate : ℕ)
    {workers : Result (List ℕ) ErrorKind}
    → count < 2 ^ 64
    → 1200 ≤ args.size
    → args.size < 16434
    → Rate args.pps count rate
    → (initial : InitialTemplate) → IsInitial args.size (replicate 20 0) initial
    → Spawned spawn 0 count first_seed workers
    → StartupOutcome args count spawn (
        done (elim workers [
          | err kind ↦ err (io kind)
          | ok seeds ↦ ok (record { rate = rate; seeds = seeds })
        ]))
start_all args count spawn rate few low high paced initial i (all_started seeds size words) =
    running rate seeds low high paced size
      (AreDistinct-words seeds first_seed (omega (arith, size)) words) initial i
      (start_state-IsStart args.size (replicate 20 0) initial seeds i)
start_all args count spawn rate few low high paced initial i (not_started k kind h e) =
    let here : 0 + k ≡ k = omega arith in no_thread k kind h (sym (ap spawn here) ∙ e)

startup_from :
    (args : Args) (available : Result ℕ ErrorKind) (spawn : ℕ → Result (Unit {0}) ErrorKind)
    {made : Run (Result InitialTemplate TemplateError)}
    → 0 < machine_threads available
    → threads args.threads available < 2 ^ 64
    → Outcome args.size made
    → StartupOutcome args
        (threads args.threads available)
        spawn
        (made >>= after_template args (threads args.threads available) spawn)
unfolding after_template
startup_from args available spawn h few (too_small small) = refused_small small
startup_from args available spawn h few (too_large large) = refused_large large
startup_from args available spawn h few (aborted low high) = crashed low high
startup_from args available spawn h few (built low high initial i) =
    let count = threads args.threads available in
    let (positive, rate, e, paced) = per_thread_pps-Rate args.threads available args.pps h in
    subst (StartupOutcome args count spawn) (sym (rw e refl)) (
      start_all args count spawn rate few low high paced initial i
        (start_workers-Spawned spawn 0 count first_seed))

-- `main` before it waits: with a size that the template refuses or panics on, nothing is started;
-- otherwise each thread gets its rate and its seed, no two threads get one seed, and the threads
-- are at a start of their runs, unless one cannot be started, whose error is then passed on. The machine's parallelism is positive
-- and the number of threads fits 64 bits.
pub startup-Outcome :
    (args : Args) (available : Result ℕ ErrorKind) (spawn : ℕ → Result (Unit {0}) ErrorKind)
    → 0 < machine_threads available
    → threads args.threads available < 2 ^ 64
    → StartupOutcome args (threads args.threads available) spawn (startup args available spawn)
unfolding startup after_template
startup-Outcome args available spawn h few =
    startup_from args available spawn h few (new-Outcome args.size)
