-- ===== src/Blaster/Workers/Tests.antt =====
-- Two sender threads: one sends a batch, and both leave when `main` has cleared the flag.
use pktauth.Base.{
  ℕ, zero, suc, ◌*◌, ◌%◌, ◌^◌, ◌≤◌, [], ◌∷◌, ◌≡◌, ◌⊎◌, refl, true, false, replicate, All,
}
use pktauth.Base.Bytes.{length-to_be_bytes}
use pktauth.Blaster.Template.Fresh.{randomize_dcid-Redrawn}
use pktauth.Blaster.Blast.{batch}
use pktauth.Blaster.Tests.{big_endian, zeroed, zeroed-IsInitial}
use pktauth.Blaster.Workers.{Shared, Worker, Blaster, head, sending, finished, HasTemplate}
use pktauth.Blaster.Workers.{
  go_on, leave, again, send_ok, count_sent, count_bytes, Step, work, stop, Reach, start, later,
  here, more, Steps,
}
use pktauth.Blaster.Workers.Monotone.{Steps-Reach}
use pktauth.Blaster.Workers.Accounted.{taken, taken_bytes, refused, Reach-Counted}
use pktauth.Blaster.Workers.Halts.{Reach-Halts}

abbrev pub sender : Worker
sender = record { initial = zeroed; rng = record { state = 3220344897584144929 }; pc = head }

abbrev idle : Worker
idle = record { initial = zeroed; rng = record { state = 10671001446143789449 }; pc = head }

abbrev pub fresh : Shared
fresh = record { stats = record { sent = 0; bytes = 0; errors = 0 }; running = true; answers = [] }

abbrev pub beside : Shared → Worker → Blaster
beside m w = record { shared = m; workers = w ∷ idle ∷ [] }

ready : HasTemplate sender
ready = (1200, replicate 20 0, zeroed-IsInitial)

pub begun : Reach big_endian (beside fresh sender)
begun = start (record {
  zeroed = refl;
  unsent = refl;
  waiting = (refl, (refl, tt));
  prepared = (ready, (ready, tt));
})

-- The sends that are left of a batch, each taken whole.
sends :
    (left n : ℕ) (m : Shared) (w : Worker)
    → w.pc ≡ sending left
    → HasTemplate w
    → m.running ≡ true
    → Steps big_endian (beside fresh sender) n (beside m w)
    → (m' : Shared) × (w' : Worker) × (n' : ℕ) × Steps big_endian
        (beside fresh sender)
        n'
        (beside m' w')
      × (w'.pc ≡ sending zero)
      × (m'.running ≡ true)
sends zero n m w at has on r = (m, w, n, r, at, on)
sends (suc left) n m w at (size, dcid, is) on r =
    let drawn =
      randomize_dcid-Redrawn big_endian (length-to_be_bytes 8) size dcid w.initial w.rng is in
    let r1 = more r (work 0 w _ _ refl (send_ok left size drawn.redrawn _ at drawn.returned)) in
    let r2 = more r1 (work 0 _ _ _ refl (count_sent size left refl)) in
    let r3 = more r2 (work 0 _ _ _ refl (count_bytes size left refl)) in
    sends left _ _ _ refl (size, _, drawn.kept) on r3

pub sent :
    (m' : Shared) × (w' : Worker) × (n' : ℕ) × Steps big_endian
      (beside fresh sender)
      n'
      (beside m' w')
    × (w'.pc ≡ sending zero)
    × (m'.running ≡ true)
sent =
    sends batch 1 fresh (record sender { pc = sending batch }) refl ready refl
      (more here (work 0 sender _ _ refl (go_on refl refl)))

abbrev stopping : Blaster
stopping = record (beside sent.0 sent.1) { shared = record (sent.0) { running = false } }

stopping-Reach : Reach big_endian stopping
stopping-Reach = later (Steps-Reach big_endian sent.3 begun) (stop sent.5)

abbrev off : Shared
off = stopping.shared

abbrev left : Worker
left = record idle { pc = finished }

-- The idle thread leaves first, and the sender once it is back at the head of its loop.
leaving : Step big_endian stopping (record { shared = off; workers = sent.1 ∷ left ∷ [] })
leaving = work 1 idle left off refl (leave refl refl)

abbrev pub joined : Blaster
joined = record { shared = off; workers = record (sent.1) { pc = finished } ∷ left ∷ [] }

pub until_joined : (n : ℕ) × Steps big_endian (beside fresh sender) n joined
until_joined =
    let r1 = more (more sent.3 (stop sent.5)) leaving in
    let r2 = more r1 (work 0 _ _ off refl (again sent.4)) in
    (_, more r2 (work 0 _ _ off refl (leave refl refl)))

joined-Reach : Reach big_endian joined
joined-Reach = Steps-Reach big_endian until_joined.1 begun

Reach-Counted_example : joined.shared.stats ≡ record {
  sent = taken joined.shared.answers % 2 ^ 64;
  bytes = taken_bytes joined.shared.answers % 2 ^ 64;
  errors = refused joined.shared.answers % 2 ^ 64;
}
Reach-Counted_example = Reach-Counted big_endian joined joined-Reach (refl, (refl, tt))

abbrev half_left : Blaster
half_left = record { shared = off; workers = sent.1 ∷ left ∷ [] }

Reach-Halts_example :
    (1 ≤ 194 * 2)
    × (All (λ w. w.pc ≡ finished) half_left.workers ⊎ ((u : Blaster) × Step big_endian half_left u))
Reach-Halts_example =
    Reach-Halts big_endian (length-to_be_bytes 8) stopping half_left 1 stopping-Reach refl
      (more here leaving)
