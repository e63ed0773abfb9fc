-- ===== src/Blaster/Workers/Monotone.antt =====
-- As long as the totals fit 64 bits, the shared counters only grow.
use pktauth.Base.{
  ℕ, zero, suc, ◌+◌, ◌^◌, ◌<◌, ◌≤◌, List, [], ◌∷◌, ◌≡◌, refl, ap, arith, some, get_elem?,
}
use pktauth.Blaster.Workers.{Shared, head, Worker, Blaster}
use pktauth.Blaster.Workers.{IsStart, Move, go_on, leave, again, send_ok, send_err, count_sent}
use pktauth.Blaster.Workers.{
  count_bytes, count_error, Step, work, stop, Reach, start, later, Steps, here, more,
}
use pktauth.Blaster.Workers.Total.{total, total-set}
use pktauth.Blaster.Workers.Accounted.{taken, taken_bytes, owed_sent, owed_bytes, owed, owed-zero}

-- The datagrams taken and their bytes can be counted in 64 bits.
pub record FitsCounters (m : Shared) : Type 0 where
  pub sent : taken m.answers < 2 ^ 64
  pub bytes : taken_bytes m.answers < 2 ^ 64

-- What `report` reads has not gone down.
pub record AtMost (m m' : Shared) : Type 0 where
  pub sent : m.stats.sent ≤ m'.stats.sent
  pub bytes : m.stats.bytes ≤ m'.stats.bytes

record IsExact (s : Blaster) : Type 0 where
  sent : s.shared.stats.sent + owed owed_sent s.workers ≡ taken s.shared.answers
  bytes : s.shared.stats.bytes + owed owed_bytes s.workers ≡ taken_bytes s.shared.answers

total-ge :
    (weight : Worker → ℕ) (xs : List Worker) (i : ℕ) (x : Worker)
    → get_elem? xs i ≡ some x
    → weight x ≤ total weight xs
total-ge weight [] i x e = cc
total-ge weight (z ∷ xs) zero x e = let same : weight z ≡ weight x = cc e in omega (arith, same)
total-ge weight (z ∷ xs) (suc i) x e = omega (arith, total-ge weight xs i x e)

IsStart-IsExact : {s : Blaster} → IsStart s → IsExact s
IsStart-IsExact {s} i = record {
  sent = omega (
    arith,
    ap (λ stats. stats.sent) i.zeroed,
    ap taken i.unsent,
    owed-zero owed_sent head s.workers refl i.waiting,
  );
  bytes = omega (
    arith,
    ap (λ stats. stats.bytes) i.zeroed,
    ap taken_bytes i.unsent,
    owed-zero owed_bytes head s.workers refl i.waiting,
  );
}

module _ (to_ne_bytes : ℕ → List ℕ) where
  -- A move's account without wrapping, and what it lets grow.
  abbrev Plain : Shared → Worker → Shared → Worker → Type 0
  Plain m w m' w' =
      (m'.stats.sent + owed_sent w'.pc + taken m.answers
        ≡ m.stats.sent + owed_sent w.pc + taken m'.answers)
      × (m'.stats.bytes + owed_bytes w'.pc + taken_bytes m.answers
          ≡ m.stats.bytes + owed_bytes w.pc + taken_bytes m'.answers)
      × (m.stats.sent ≤ m'.stats.sent)
      × (m.stats.bytes ≤ m'.stats.bytes)

  Move-Plain :
      (m m' : Shared) (w w' : Worker)
      → Move to_ne_bytes m w m' w'
      → m.stats.sent + owed_sent w.pc < 2 ^ 64
      → m.stats.bytes + owed_bytes w.pc < 2 ^ 64
      → Plain m w m' w'
  Move-Plain m m' w w' (go_on p r) h k = ground arith
  Move-Plain m m' w w' (leave p r) h k = ground arith
  Move-Plain m m' w w' (again p) h k = ground arith
  Move-Plain m m' w w' (send_ok left n initial rng p d) h k = ground arith
  Move-Plain m m' w w' (send_err left kind initial rng p d) h k = ground arith
  Move-Plain m m' w w' (count_sent n left p) h k =
      let owes : owed_sent w.pc ≡ 1 = ap owed_sent p in ground arith
  Move-Plain m m' w w' (count_bytes n left p) h k =
      let owes : owed_bytes w.pc ≡ n = ap owed_bytes p in ground arith
  Move-Plain m m' w w' (count_error left p) h k = ground arith

  -- Answers are only added.
  Move-later :
      (m m' : Shared) (w w' : Worker)
      → Move to_ne_bytes m w m' w'
      → (taken m.answers ≤ taken m'.answers) × (taken_bytes m.answers ≤ taken_bytes m'.answers)
  Move-later m m' w w' (go_on p r) = omega arith
  Move-later m m' w w' (leave p r) = omega arith
  Move-later m m' w w' (again p) = omega arith
  Move-later m m' w w' (send_ok left n initial rng p d) = omega arith
  Move-later m m' w w' (send_err left kind initial rng p d) = omega arith
  Move-later m m' w w' (count_sent n left p) = omega arith
  Move-later m m' w w' (count_bytes n left p) = omega arith
  Move-later m m' w w' (count_error left p) = omega arith

  Step-earlier :
      {s t : Blaster} → Step to_ne_bytes s t → FitsCounters t.shared → FitsCounters s.shared
  Step-earlier {s} (work i w w' m at mv) f =
      let (sent, bytes) = Move-later s.shared m w w' mv in
      record { sent = omega (arith, sent, f.sent); bytes = omega (arith, bytes, f.bytes) }
  Step-earlier (stop r) f = record { sent = f.sent; bytes = f.bytes }

  Step-IsExact :
      {s t : Blaster}
      → Step to_ne_bytes s t
      → FitsCounters s.shared
      → IsExact s
      → IsExact t × AtMost s.shared t.shared
  Step-IsExact {s} (work i w w' m at mv) f e =
      let weighs_sent = total-ge (λ w. owed_sent w.pc) s.workers i w at in
      let weighs_bytes = total-ge (λ w. owed_bytes w.pc) s.workers i w at in
      let (sent, bytes, more_sent, more_bytes) =
        Move-Plain s.shared m w w' mv (omega (arith, e.sent, f.sent, weighs_sent))
          (omega (arith, e.bytes, f.bytes, weighs_bytes)) in
      (
        record {
          sent = omega (arith, sent, e.sent, total-set (λ w. owed_sent w.pc) s.workers i w w' at);
          bytes =
              omega (arith, bytes, e.bytes, total-set (λ w. owed_bytes w.pc) s.workers i w w' at);
        },
        record { sent = more_sent; bytes = more_bytes },
      )
  Step-IsExact (stop r) f e = (
    record { sent = e.sent; bytes = e.bytes },
    record { sent = omega arith; bytes = omega arith },
  )

  Reach-IsExact : {s : Blaster} → Reach to_ne_bytes s → FitsCounters s.shared → IsExact s
  Reach-IsExact (start i) f = IsStart-IsExact i
  Reach-IsExact (later r st) f =
      let before = Step-earlier st f in (Step-IsExact st before (Reach-IsExact r before)).0

  pub Steps-Reach :
      {s t : Blaster} {n : ℕ} → Steps to_ne_bytes s n t → Reach to_ne_bytes s → Reach to_ne_bytes t
  Steps-Reach here r = r
  Steps-Reach (more run st) r = later (Steps-Reach run r) st

  pub Steps-earlier :
      {s t : Blaster} {n : ℕ}
      → Steps to_ne_bytes s n t
      → FitsCounters t.shared
      → FitsCounters s.shared
  Steps-earlier here f = f
  Steps-earlier (more run st) f = Steps-earlier run (Step-earlier st f)

  -- No counter goes down while the totals fit.
  pub Steps-AtMost :
      {s t : Blaster} {n : ℕ}
      → Reach to_ne_bytes s
      → Steps to_ne_bytes s n t
      → FitsCounters t.shared
      → AtMost s.shared t.shared
  Steps-AtMost r here f = record { sent = omega arith; bytes = omega arith }
  Steps-AtMost r (more run st) f =
      let before = Step-earlier st f in
      let so_far = Steps-AtMost r run before in
      let (_, last) = Step-IsExact st before (Reach-IsExact (Steps-Reach run r) before) in
      record {
        sent = omega (arith, so_far.sent, last.sent);
        bytes = omega (arith, so_far.bytes, last.bytes);
      }
