-- ===== src/Blaster/Report/Tests.antt =====
-- A line of `report` during the first send: the bytes are loaded after the thread has counted them.
use pktauth.Base.{[], ◌∷◌, ◌≡◌, refl, done, ok, replicate, arith}
use pktauth.Base.Bytes.{length-to_be_bytes}
use pktauth.Blaster.Template.Fresh.{randomize_dcid-Redrawn, Redrawn}
use pktauth.Blaster.Tests.{big_endian, zeroed, zeroed-IsInitial}
use pktauth.Blaster.Rng.{SplitMix64, next}
use pktauth.Blaster.Workers.{
  Shared, Blaster, sending, counted, go_on, send_ok, count_sent, count_bytes, work, Steps, here,
  more,
}
use pktauth.Blaster.Workers.Monotone.{FitsCounters}
use pktauth.Blaster.Workers.Tests
use pktauth.Blaster.Workers.Tests.{sender, fresh, beside}
use pktauth.Blaster.Report.{Reporter, Line, report_line, begun}
use pktauth.Blaster.Report.Adds.{Adds, report_line-Adds}

drawn : Redrawn big_endian (length-to_be_bytes 8) 1200 zeroed sender.rng
drawn =
    randomize_dcid-Redrawn big_endian (length-to_be_bytes 8) 1200 (replicate 20 0) zeroed sender.rng
      zeroed-IsInitial

abbrev answered : Shared
answered = record fresh { answers = ok 1200 ∷ [] }

abbrev half_counted : Shared
half_counted = record answered { stats = record { sent = 1; bytes = 0; errors = 0 } }

abbrev all_counted : Shared
all_counted = record answered { stats = record { sent = 1; bytes = 1200; errors = 0 } }

abbrev thrice : SplitMix64
thrice = (next (next (next sender.rng).1).1).1

abbrev at_first : Blaster
at_first = beside fresh sender

abbrev at_sent : Blaster
at_sent =
    beside half_counted (record { initial = drawn.redrawn; rng = thrice; pc = counted 1200 63 })

first_send : Steps big_endian at_first 3 at_sent
first_send =
    more
      (more (more here (work 0 sender _ _ refl (go_on refl refl)))
        (work 0 _ _ answered refl (send_ok 63 1200 drawn.redrawn _ refl drawn.returned)))
      (work 0 _ _ half_counted refl (count_sent 1200 63 refl))

abbrev at_bytes : Blaster
at_bytes = beside all_counted (record { initial = drawn.redrawn; rng = thrice; pc = sending 63 })

first_bytes : Steps big_endian at_sent 1 at_bytes
first_bytes = more here (work 0 _ _ all_counted refl (count_bytes 1200 63 refl))

abbrev silent : Reporter
silent = record { last_sent = 0; last_bytes = 0 }

all_counted-FitsCounters : FitsCounters all_counted
all_counted-FitsCounters = record { sent = omega arith; bytes = omega arith }

report_line-Adds_example :
    (line : Line) × (report_line 1 1200 silent
      ≡ done (line, record { last_sent = 1; last_bytes = 1200 }))
    × Adds 1 1200 [] line
report_line-Adds_example =
    report_line-Adds big_endian at_first at_sent at_bytes 3 1 silent [] (begun Tests.begun)
      first_send first_bytes all_counted-FitsCounters
