-- ===== src/Blaster/Blast.antt =====
-- src/bin/blaster.rs: `blast`, one sender thread. What the operating system answers is explicit:
-- to `bind`, to `connect`, and to the n-th `send`; the loads of the stop flag are a list whose end
-- answers false. The sleep that paces the sends is Pace's, and so is the local count that only it
-- reads. The statistics are what this thread makes of them.
pub mod Wire
pub mod Sound
pub mod Distinct
use pktauth.Base.{ℕ, zero, suc, ◌+◌, List, [], ◌∷◌, ◌++◌, Bool, true, false}
use pktauth.Base.{Run, done, ◌>>=◌, Result, ok, err, length}
use pktauth.Socket.Counters.{ErrorKind, fetch_add}
use pktauth.Blaster.Rng.{SplitMix64}
use pktauth.Blaster.Template.{InitialTemplate, TemplateError, randomize_dcid, new}

abbrev pub batch : ℕ
batch = 64

pub record Stats : Type 0 where
  pub sent : ℕ
  pub bytes : ℕ
  pub errors : ℕ

pub data BlastError : Type 0 where
  io : ErrorKind → BlastError
  template : TemplateError → BlastError

-- The loop's variables, and every datagram that it has handed to `send` so far, last first.
pub record Blasting : Type 0 where
  pub initial : InitialTemplate
  pub rng : SplitMix64
  pub stats : Stats
  pub wire : List (List ℕ)

abbrev pub count_send : Result ℕ ErrorKind → Stats → Stats
count_send (ok n) stats = record stats {
  sent = fetch_add stats.sent 1;
  bytes = fetch_add stats.bytes n;
}
count_send (err _) stats = record stats { errors = fetch_add stats.errors 1 }

module _ (to_ne_bytes : ℕ → List ℕ) (send : ℕ → List ℕ → Result ℕ ErrorKind) where
  unfoldable pub send_one : Blasting → Run Blasting
  send_one s = do
    (initial, rng) ← randomize_dcid to_ne_bytes s.initial s.rng
    done (record {
      initial = initial;
      rng = rng;
      stats = count_send (send (length s.wire) initial.bytes) s.stats;
      wire = initial.bytes ∷ s.wire;
    })

  unfoldable pub send_batch : ℕ → Blasting → Run Blasting
  send_batch zero s = done s
  send_batch (suc n) s = send_one s >>= send_batch n

  unfoldable pub blast_loop : List Bool → Blasting → Run Blasting
  blast_loop [] s = done s
  blast_loop (false ∷ _) s = done s
  blast_loop (true ∷ running) s = send_batch batch s >>= blast_loop running

  unfoldable pub blast :
      Result (Unit {0}) ErrorKind
      → Result (Unit {0}) ErrorKind
      → ℕ
      → ℕ
      → List Bool
      → Stats
      → Run (Result Blasting BlastError)
  blast (err kind) connected size seed running stats = done (err (io kind))
  blast (ok _) (err kind) size seed running stats = done (err (io kind))
  blast (ok _) (ok _) size seed running stats = do
    built ← new size
    elim built [
      | err e ↦ done (err (template e))
      | ok initial ↦
          blast_loop running
            (record { initial = initial; rng = record { state = seed }; stats = stats; wire = [] })
          >>= λ s. done (ok s)
    ]
