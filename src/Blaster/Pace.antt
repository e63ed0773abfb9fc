-- ===== src/Blaster/Pace.antt =====
-- src/bin/blaster.rs: how `blast` paces its batches. Times are nanoseconds since its start. What
-- `Duration::from_secs_f64` makes of a quotient of two numbers is an argument.
pub mod Bounded
mod Tests
use pktauth.Base.{ℕ, zero, suc, ◌+◌, ◌-◌, ◌*◌, ◌≤◌, Option, none, some, ltb, if◌then◌else◌, ◌≡◌}
use pktauth.Blaster.Blast.{batch}

-- `Duration::checked_sub`.
abbrev pub checked_sub_duration : ℕ → ℕ → Option ℕ
checked_sub_duration target elapsed = if ltb target elapsed then none else some (target - elapsed)

module _ (from_secs : ℕ → ℕ → ℕ) where
  -- How long a thread sleeps after a batch, if it does.
  unfoldable pub pause : ℕ → ℕ → ℕ → Option ℕ
  pause pps sent elapsed =
      if ltb 0 pps then checked_sub_duration (from_secs sent pps) elapsed else none

  -- The head of the loop is reached at a time after so many batches. A batch and the clock's reading
  -- take their time, and a sleep takes at least what was asked for.
  pub data AtHead (pps : ℕ) : ℕ → ℕ → Type 0 where
    begun : (now : ℕ) → AtHead pps zero now
    at_once :
        (batches now elapsed later : ℕ)
        → AtHead pps batches now
        → now ≤ elapsed
        → pause pps (suc batches * batch) elapsed ≡ none
        → elapsed ≤ later
        → AtHead pps (suc batches) later
    rested :
        (batches now elapsed time later : ℕ)
        → AtHead pps batches now
        → now ≤ elapsed
        → pause pps (suc batches * batch) elapsed ≡ some time
        → elapsed + time ≤ later
        → AtHead pps (suc batches) later

  -- So many attempts at a time: those of the batches before the head of the loop, and some of the next
  -- batch, made since. A thread that sleeps after a batch has made all of it.
  pub data Made (pps : ℕ) : ℕ → ℕ → Type 0 where
    made :
        (batches i time now : ℕ)
        → AtHead pps batches time
        → time ≤ now
        → i ≤ batch
        → Made pps (batches * batch + i) now
