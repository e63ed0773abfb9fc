-- ===== src/Blaster/Pace/Tests.antt =====
-- Two threads that share a rate, in the middle of their batches.
use pktauth.Base.{
  ℕ, ◌+◌, ◌*◌, ◌/◌, ◌≤◌, ◌<◌, [], ◌∷◌, ◌≡◌, refl, some, none, ok, done, sum, arith, max,
}
use native.Mathlib.Nat.{lt-div-mul-add}
use pktauth.Blaster.Blast.{batch}
use pktauth.Blaster.Rates.{threads, per_thread_pps}
use pktauth.Blaster.Pace.{Made, made, pause, begun, rested}
use pktauth.Blaster.Pace.Bounded.{IsClose, paced-Bounded}

abbrev rounded_down : ℕ → ℕ → ℕ
rounded_down sent pps = sent * 1000000000 / pps

rounded_down-IsClose : IsClose rounded_down 1 1000000
rounded_down-IsClose sent pps paced few =
    let below : sent * 1000000000 < sent * 1000000000 / pps * pps + pps = lt-div-mul-add paced in
    omega (arith, below)

-- The batch took ten nanoseconds, so the thread sleeps for the rest of its second.
rests : pause rounded_down 64 64 10 ≡ some 999999990
unfolding pause
rests = refl

-- Behind its schedule a thread goes on at once.
behind : pause rounded_down 64 64 1000000001 ≡ none
unfolding pause
behind = refl

-- A thread that was a little late for its second batch, of which it has made three attempts.
thread : Made rounded_down 64 67 1000000005
thread =
    made 1 3 1000000002 1000000005
      (rested 0 0 10 999999990 1000000002 (begun 0) (omega arith) rests (omega arith)) (omega arith)
      (omega arith)

-- A thread that has just made its first batch.
behind_it : Made rounded_down 64 64 1000000005
behind_it = made 0 64 0 1000000005 (begun 0) (omega arith) (omega arith)

given : per_thread_pps 128 (threads (some 2) (ok 8)) ≡ done 64
unfolding per_thread_pps threads
given = refl

two_started : 2 ≡ threads (some 2) (ok 8)
unfolding threads
two_started = refl

paced-Bounded_example :
    sum (67 ∷ 64 ∷ []) * 1000000000
    ≤ (1000000005 + 1) * max 128 (threads (some 2) (ok 8))
      + threads (some 2) (ok 8) * batch * 1000000000
paced-Bounded_example =
    paced-Bounded rounded_down 1 1000000 rounded_down-IsClose (some 2) (ok 8) 128 64 1000000005
      (67 ∷ 64 ∷ []) (omega arith) (omega arith) given two_started (omega arith)
      (thread, (behind_it, tt))
