-- ===== src/Blaster/Report.antt =====
-- src/bin/blaster.rs: `report`, which loads the shared statistics about once a second while the
-- sender threads run, and prints what was added. The time between two lines is left open, and so is
-- what the threads do between the loads of the two counters. The throughput in bytes is printed in
-- MiB, here it is the number of bytes.
pub mod Adds
mod Tests
use pktauth.Base.{
  ℕ, zero, suc, ◌-◌, List, [], ◌∷◌, ◌≡◌, Run, done, panic, ◌>>=◌, leb, if◌then◌else◌,
}
use pktauth.Blaster.Workers.{Blaster, Reach, Steps}

-- The local variables of `report`.
pub record Reporter : Type 0 where
  pub last_sent : ℕ
  pub last_bytes : ℕ

-- One line of output.
pub record Line : Type 0 where
  pub packets : ℕ
  pub bytes : ℕ
  pub total : ℕ

-- A subtraction of unsigned integers, whose overflow panics.
abbrev pub checked_sub : ℕ → ℕ → Run ℕ
checked_sub m n = if leb n m then done (m - n) else panic

-- One round of the loop, by what it loads.
unfoldable pub report_line : ℕ → ℕ → Reporter → Run (Line × Reporter)
report_line sent bytes r = do
  packets ← checked_sub sent r.last_sent
  more ← checked_sub bytes r.last_bytes
  done (
    record { packets = packets; bytes = more; total = sent },
    record { last_sent = sent; last_bytes = bytes },
  )

-- The lines printed so far, last first, when the blaster is in a state.
pub data Reports (to_ne_bytes : ℕ → List ℕ) : Blaster → Reporter → List Line → Type 0 where
  begun :
      {s : Blaster}
      → Reach to_ne_bytes s
      → Reports to_ne_bytes s (record { last_sent = 0; last_bytes = 0 }) []
  tick :
      {s t u : Blaster} {n m : ℕ} {r r' : Reporter} {lines : List Line} {line : Line}
      → Reports to_ne_bytes s r lines
      → Steps to_ne_bytes s n t
      → Steps to_ne_bytes t m u
      → report_line t.shared.stats.sent u.shared.stats.bytes r ≡ done (line, r')
      → Reports to_ne_bytes u r' (line ∷ lines)
