-- ===== src/Blaster/Workers.antt =====
-- src/bin/blaster.rs: the sender threads of `blast` over shared statistics, a shared access at a
-- time and interleaved in any order, with the stop flag that `main` clears. Each `fetch_add` is a
-- step of its own, so a thread is caught between a send and its counters. What `send` answers is
-- left open. The sleep that paces the sends is Pace's.
pub mod Total
pub mod Accounted
pub mod Halts
pub mod Monotone
pub mod Tests
use pktauth.Base.{ℕ, zero, suc, ◌+◌, List, [], ◌∷◌, Bool, true, false, ◌≡◌, some, set, get_elem?}
use pktauth.Base.{Run, done, Result, ok, err, All}
use pktauth.Socket.Counters.{ErrorKind, fetch_add}
use pktauth.Blaster.Rng.{SplitMix64, next}
use pktauth.Blaster.Template.{InitialTemplate, randomize_dcid}
use pktauth.Blaster.Template.Outcome.{IsInitial}
use pktauth.Blaster.Blast.{Stats, batch}

-- What the threads share, and every answer that `send` gave to any of them, last first.
pub record Shared : Type 0 where
  pub stats : Stats
  pub running : Bool
  pub answers : List (Result ℕ ErrorKind)

-- Where a thread stands, with the sends that are left of its batch.
pub data Pc : Type 0 where
  head : Pc
  sending : (left : ℕ) → Pc
  took : (n left : ℕ) → Pc
  counted : (n left : ℕ) → Pc
  failed : (left : ℕ) → Pc
  finished : Pc

-- The local variables of `blast`.
pub record Worker : Type 0 where
  pub initial : InitialTemplate
  pub rng : SplitMix64
  pub pc : Pc

pub record Blaster : Type 0 where
  pub shared : Shared
  pub workers : List Worker

-- A thread got past `InitialTemplate::new`.
abbrev pub HasTemplate : Worker → Type 0
HasTemplate w = (size : ℕ) × (dcid : List ℕ) × IsInitial size dcid w.initial

-- The state of the threads at their start: `Stats::default`, and a seed for each.
pub record IsStart (s : Blaster) : Type 0 where
  pub zeroed : s.shared.stats ≡ record { sent = 0; bytes = 0; errors = 0 }
  pub unsent : s.shared.answers ≡ []
  pub waiting : All (λ w. w.pc ≡ head) s.workers
  pub prepared : All HasTemplate s.workers

-- The threads that `main` starts: each with the template that it builds, and with its own seed.
abbrev pub workers_at_head : InitialTemplate → List ℕ → List Worker
workers_at_head initial [] = []
workers_at_head initial (seed ∷ seeds) =
    record { initial = initial; rng = record { state = seed }; pc = head }
    ∷ workers_at_head initial seeds

abbrev pub start_state : InitialTemplate → List ℕ → Blaster
start_state initial seeds = record {
  shared = record {
    stats = record { sent = 0; bytes = 0; errors = 0 };
    running = true;
    answers = [];
  };
  workers = workers_at_head initial seeds;
}

module _ (to_ne_bytes : ℕ → List ℕ) where
  -- One step of one thread.
  pub data Move (m : Shared) (w : Worker) : Shared → Worker → Type 0 where
    go_on : w.pc ≡ head → m.running ≡ true → Move m w m (record w { pc = sending batch })
    leave : w.pc ≡ head → m.running ≡ false → Move m w m (record w { pc = finished })
    again : w.pc ≡ sending zero → Move m w m (record w { pc = head })
    send_ok :
        (left n : ℕ) (initial : InitialTemplate) (rng : SplitMix64)
        → w.pc ≡ sending (suc left)
        → randomize_dcid to_ne_bytes w.initial w.rng ≡ done (initial, rng)
        → Move m w
            (record m { answers = ok n ∷ m.answers })
            (record { initial = initial; rng = rng; pc = took n left })
    send_err :
        (left : ℕ) (kind : ErrorKind) (initial : InitialTemplate) (rng : SplitMix64)
        → w.pc ≡ sending (suc left)
        → randomize_dcid to_ne_bytes w.initial w.rng ≡ done (initial, rng)
        → Move m w
            (record m { answers = err kind ∷ m.answers })
            (record { initial = initial; rng = rng; pc = failed left })
    count_sent :
        (n left : ℕ)
        → w.pc ≡ took n left
        → Move m w
            (record m { stats = record (m.stats) { sent = fetch_add m.stats.sent 1 } })
            (record w { pc = counted n left })
    count_bytes :
        (n left : ℕ)
        → w.pc ≡ counted n left
        → Move m w
            (record m { stats = record (m.stats) { bytes = fetch_add m.stats.bytes n } })
            (record w { pc = sending left })
    count_error :
        (left : ℕ)
        → w.pc ≡ failed left
        → Move m w
            (record m { stats = record (m.stats) { errors = fetch_add m.stats.errors 1 } })
            (record w { pc = sending left })

  -- A thread moves, or `main` clears the flag.
  pub data Step (s : Blaster) : Blaster → Type 0 where
    work :
        (i : ℕ) (w w' : Worker) (m : Shared)
        → get_elem? s.workers i ≡ some w
        → Move s.shared w m w'
        → Step s (record { shared = m; workers = set s.workers i w' })
    stop :
        s.shared.running ≡ true
        → Step s (record s { shared = record (s.shared) { running = false } })

  pub data Reach : Blaster → Type 0 where
    start : {s : Blaster} → IsStart s → Reach s
    later : {s t : Blaster} → Reach s → Step s t → Reach t

  -- So many steps from one state to another.
  pub data Steps (s : Blaster) : ℕ → Blaster → Type 0 where
    here : Steps s zero s
    more : {n : ℕ} {t u : Blaster} → Steps s n t → Step t u → Steps s (suc n) u
