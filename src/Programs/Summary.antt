-- ===== src/Programs/Summary.antt =====
-- src/bin/client.rs: `print_summary`, and `main` from its loop to it. The summary is what is
-- printed: the loss is the quotient before its rounding to a float, and a duration is a number of
-- nanoseconds.
pub mod Figures
pub mod Pinged
use pktauth.Base.{
  ℕ, zero, suc, ◌+◌, ◌*◌, ◌/◌, ◌%◌, ◌^◌, List, [], ◌∷◌, Option, none, some, min, max, ltb, ◌==◌,
  if◌then◌else◌,
}
use pktauth.Base.{Run, done, panic, ◌>>=◌, expect, Result, length}
use pktauth.Socket.Counters.{PacketCounts}
use pktauth.Ping.Streams.{Error}
use pktauth.Programs.Pinging.{Pinging, started, ping_loop}

pub record Rtts : Type 0 where
  pub min_rtt : ℕ
  pub avg_rtt : ℕ
  pub max_rtt : ℕ

pub record Fraction : Type 0 where
  pub numerator : ℕ
  pub denominator : ℕ

pub record Summary : Type 0 where
  pub sent : ℕ
  pub echoed : ℕ
  pub loss_pct : Fraction
  pub counts : PacketCounts
  pub rtts : Option Rtts

-- `Duration::MAX` and one more.
abbrev pub duration_limit : ℕ
duration_limit = 2 ^ 64 * 1000000000

-- `iter().sum::<Duration>()` from `acc` on: an overflow panics.
abbrev pub sum_durations : ℕ → List ℕ → Run ℕ
sum_durations acc [] = done acc
sum_durations acc (d ∷ ds) =
    let rest = sum_durations (acc + d) ds in if ltb (acc + d) duration_limit then rest else panic

abbrev pub min_duration : List ℕ → Option ℕ
min_duration [] = none
min_duration (d ∷ ds) = elim (min_duration ds) [ none ↦ some d | some m ↦ some (min d m) ]

abbrev pub max_duration : List ℕ → Option ℕ
max_duration [] = none
max_duration (d ∷ ds) = elim (max_duration ds) [ none ↦ some d | some m ↦ some (max d m) ]

-- `Duration / u32`, which panics at zero.
abbrev pub divide_duration : ℕ → ℕ → Run ℕ
divide_duration d n = if n == 0 then panic else done (d / n)

abbrev pub loss : ℕ → ℕ → Fraction
loss sent lost =
    if sent == 0
    then record { numerator = 0; denominator = 1 }
    else record { numerator = lost * 100; denominator = sent }

-- The figures of round trips that are not empty.
unfoldable pub rtt_figures : List ℕ → Run Rtts
rtt_figures rtts = do
  least ← expect (min_duration rtts)
  most ← expect (max_duration rtts)
  sum ← sum_durations 0 rtts
  avg ← divide_duration sum (length rtts % 2 ^ 32)
  done (record { min_rtt = least; avg_rtt = avg; max_rtt = most })

unfoldable pub print_summary : ℕ → List ℕ → ℕ → PacketCounts → Run Summary
print_summary sent rtts lost counts =
    let summary : Option Rtts → Summary = λ figures. record {
      sent = sent;
      echoed = length rtts;
      loss_pct = loss sent lost;
      counts = counts;
      rtts = figures;
    } in
    if length rtts == 0
    then done (summary none)
    else (rtt_figures rtts >>= λ figures. done (summary (some figures)))

-- `main` from the loop on; `none` is a loop that the fuel did not see end.
unfoldable pub ping_and_print :
    (ℕ → List ℕ → Result ℕ Error) → ℕ → ℕ → ℕ → PacketCounts → Run (Option Summary)
ping_and_print ping count size fuel counts = do
  ended ← ping_loop ping count size fuel started
  elim ended [
    | none ↦ done none
    | some s ↦ print_summary s.seq s.rtts s.lost counts >>= λ summary. done (some summary)
  ]
