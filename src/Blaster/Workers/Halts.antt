-- ===== src/Blaster/Workers/Halts.antt =====
-- The sender threads stop once the flag is cleared, and none of them panics.
use pktauth.Base.{
  ℕ, zero, suc, ◌+◌, ◌*◌, ◌≤◌, ◌<◌, List, [], ◌∷◌, ◌≡◌, refl, ap, subst, arith, some, get_elem?,
  All,
}
use pktauth.Base.{false, length, done, ◌⊎◌, inl, inr, Bool-cases}
use pktauth.Base.Slots.{All-get_elem?, All-set}
use pktauth.Blaster.Rng.{SplitMix64}
use pktauth.Blaster.Template.{InitialTemplate, randomize_dcid}
use pktauth.Blaster.Template.Outcome.{IsInitial}
use pktauth.Blaster.Template.Fresh.{fresh_cid, randomize_dcid-Redrawn}
use pktauth.Blaster.Workers.{
  Shared, Pc, head, sending, took, counted, failed, finished, Worker, Blaster,
}
use pktauth.Blaster.Workers.{HasTemplate, Move, go_on, leave, again, send_ok, send_err, count_sent}
use pktauth.Blaster.Workers.{
  count_bytes, count_error, Step, work, stop, Reach, start, later, Steps, here, more,
}
use pktauth.Blaster.Workers.Monotone.{Steps-Reach}
use pktauth.Blaster.Workers.Total.{total, total-set}

-- The steps that a thread has left, at most, once the flag is cleared.
abbrev pub steps_left : Pc → ℕ
steps_left head = 1
steps_left (sending left) = 3 * left + 2
steps_left (took n left) = 3 * left + 4
steps_left (counted n left) = 3 * left + 3
steps_left (failed left) = 3 * left + 3
steps_left finished = 0

-- What a thread keeps: its template, and at most one batch to go.
record IsReady (w : Worker) : Type 0 where
  template : HasTemplate w
  within : steps_left w.pc ≤ 194

module _ (to_ne_bytes : ℕ → List ℕ)
    (length-to_ne_bytes : (w : ℕ) → length (to_ne_bytes w) ≡ 8) where
  redrawn-HasTemplate :
      (w : Worker) (initial : InitialTemplate) (rng : SplitMix64) (pc : Pc)
      → HasTemplate w
      → randomize_dcid to_ne_bytes w.initial w.rng ≡ done (initial, rng)
      → HasTemplate (record { initial = initial; rng = rng; pc = pc })
  redrawn-HasTemplate w initial rng pc (size, dcid, i) e =
      let drawn =
        randomize_dcid-Redrawn to_ne_bytes length-to_ne_bytes size dcid w.initial w.rng i in
      let same : drawn.redrawn ≡ initial = cc (drawn.returned, e) in
      (
        size,
        fresh_cid to_ne_bytes w.rng,
        subst (IsInitial size (fresh_cid to_ne_bytes w.rng)) same drawn.kept,
      )

  Move-IsReady :
      {m m' : Shared} {w w' : Worker} → Move to_ne_bytes m w m' w' → IsReady w → IsReady w'
  Move-IsReady (go_on p r) i = record { template = i.template; within = omega arith }
  Move-IsReady (leave p r) i = record { template = i.template; within = omega arith }
  Move-IsReady (again p) i = record { template = i.template; within = omega arith }
  Move-IsReady {w} (send_ok left n initial rng p d) i = record {
    template = redrawn-HasTemplate w initial rng (took n left) i.template d;
    within = omega (arith, i.within, ap steps_left p);
  }
  Move-IsReady {w} (send_err left kind initial rng p d) i = record {
    template = redrawn-HasTemplate w initial rng (failed left) i.template d;
    within = omega (arith, i.within, ap steps_left p);
  }
  Move-IsReady (count_sent n left p) i = record {
    template = i.template;
    within = omega (arith, i.within, ap steps_left p);
  }
  Move-IsReady (count_bytes n left p) i = record {
    template = i.template;
    within = omega (arith, i.within, ap steps_left p);
  }
  Move-IsReady (count_error left p) i = record {
    template = i.template;
    within = omega (arith, i.within, ap steps_left p);
  }

  Step-IsReady :
      {s t : Blaster} → Step to_ne_bytes s t → All IsReady s.workers → All IsReady t.workers
  Step-IsReady {s} (work i w w' m at mv) a =
      All-set IsReady s.workers i w' a (Move-IsReady mv (All-get_elem? IsReady s.workers i a at))
  Step-IsReady (stop r) a = a

  start-IsReady :
      (workers : List Worker)
      → All (λ w. w.pc ≡ head) workers
      → All HasTemplate workers
      → All IsReady workers
  start-IsReady [] p t = tt
  start-IsReady (w ∷ workers) p t = (
    record { template = t.0; within = omega (arith, ap steps_left p.0) },
    start-IsReady workers p.1 t.1,
  )

  Reach-IsReady : {s : Blaster} → Reach to_ne_bytes s → All IsReady s.workers
  Reach-IsReady {s} (start i) = start-IsReady s.workers i.waiting i.prepared
  Reach-IsReady (later r st) = Step-IsReady st (Reach-IsReady r)

  -- Without the flag every move of a thread leaves it fewer steps.
  Move-steps_left :
      {m m' : Shared} {w w' : Worker}
      → Move to_ne_bytes m w m' w'
      → m.running ≡ false
      → (m'.running ≡ false) × (steps_left w'.pc < steps_left w.pc)
  Move-steps_left (go_on p r) off = cc
  Move-steps_left (leave p r) off = (off, omega (arith, ap steps_left p))
  Move-steps_left (again p) off = (off, omega (arith, ap steps_left p))
  Move-steps_left (send_ok left n initial rng p d) off = (off, omega (arith, ap steps_left p))
  Move-steps_left (send_err left kind initial rng p d) off = (off, omega (arith, ap steps_left p))
  Move-steps_left (count_sent n left p) off = (off, omega (arith, ap steps_left p))
  Move-steps_left (count_bytes n left p) off = (off, omega (arith, ap steps_left p))
  Move-steps_left (count_error left p) off = (off, omega (arith, ap steps_left p))

  Steps-steps_left :
      {s t : Blaster} {n : ℕ}
      → Steps to_ne_bytes s n t
      → s.shared.running ≡ false
      → (t.shared.running ≡ false)
        × (n + total (λ w. steps_left w.pc) t.workers ≤ total (λ w. steps_left w.pc) s.workers)
  Steps-steps_left here off = (off, omega arith)
  Steps-steps_left (more {t = t} run (work i w w' m at mv)) off =
      let (off', before) = Steps-steps_left run off in
      let (off'', fewer) = Move-steps_left mv off' in
      (off'', omega (arith, before, fewer, total-set (λ w. steps_left w.pc) t.workers i w w' at))
  Steps-steps_left (more run (stop r)) off = let (off', before) = Steps-steps_left run off in cc

  -- A thread that is ready has finished or can move, whatever `send` answers.
  next_move :
      (m : Shared) (w : Worker) (pc : Pc)
      → w.pc ≡ pc
      → IsReady w
      → (w.pc ≡ finished) ⊎ ((m' : Shared) × (w' : Worker) × Move to_ne_bytes m w m' w')
  next_move m w head p i = elim (Bool-cases m.running) [
    | inl on ↦ inr (_, _, go_on p on)
    | inr off ↦ inr (_, _, leave p off)
  ]
  next_move m w (sending zero) p i = inr (_, _, again p)
  next_move m w (sending (suc left)) p i =
      let (size, dcid, initial) = i.template in
      let drawn =
        randomize_dcid-Redrawn to_ne_bytes length-to_ne_bytes size dcid w.initial w.rng initial in
      inr (_, _, send_ok left size drawn.redrawn _ p drawn.returned)
  next_move m w (took n left) p i = inr (_, _, count_sent n left p)
  next_move m w (counted n left) p i = inr (_, _, count_bytes n left p)
  next_move m w (failed left) p i = inr (_, _, count_error left p)
  next_move m w finished p i = inl p

  next_step :
      (m : Shared) (workers : List Worker)
      → All IsReady workers
      → All (λ w. w.pc ≡ finished) workers
        ⊎ ((k : ℕ) × (w : Worker) × (m' : Shared) × (w' : Worker) × (get_elem? workers k ≡ some w)
            × Move to_ne_bytes m w m' w')
  next_step m [] a = inl tt
  next_step m (w ∷ workers) a = elim (next_move m w w.pc refl a.0) [
    | inr moves ↦ let (m', w', mv) = moves in inr (0, w, m', w', refl, mv)
    | inl stopped ↦ elim (next_step m workers a.1) [
      | inl others ↦ inl (stopped, others)
      | inr found ↦ let (k, w'', m', w', at, mv) = found in inr (suc k, w'', m', w', at, mv)
    ]
  ]

  total_ready :
      (workers : List Worker)
      → All IsReady workers
      → total (λ w. steps_left w.pc) workers ≤ 194 * length workers
  total_ready [] a = omega arith
  total_ready (w ∷ workers) a = omega (arith, a.0.within, total_ready workers a.1)

  -- Once `main` has cleared the flag, the threads together make at most 194 more steps for each of
  -- them, in whatever order; and as long as one of them has not finished, some thread can move. So
  -- every thread finishes, none of them panics, and joining them ends.
  pub Reach-Halts :
      (s t : Blaster) (n : ℕ)
      → Reach to_ne_bytes s
      → s.shared.running ≡ false
      → Steps to_ne_bytes s n t
      → (n ≤ 194 * length s.workers)
        × (All (λ w. w.pc ≡ finished) t.workers ⊎ ((u : Blaster) × Step to_ne_bytes t u))
  Reach-Halts s t n r off run =
      let bound = Steps-steps_left run off in
      (
        omega (arith, bound.1, total_ready s.workers (Reach-IsReady r)),
        elim (next_step t.shared t.workers (Reach-IsReady (Steps-Reach to_ne_bytes run r))) [
          | inl all_done ↦ inl all_done
          | inr found ↦ let (k, w, m', w', at, mv) = found in inr (_, work k w w' m' at mv)
        ],
      )
