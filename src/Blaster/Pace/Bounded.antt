-- ===== src/Blaster/Pace/Bounded.antt =====
-- The rate that the threads keep together.
use pktauth.Base.{ℕ, zero, suc, ◌+◌, ◌*◌, ◌≤◌, ◌<◌, max, List, [], ◌∷◌, ◌≡◌, ap, subst, ◌∙◌, arith}
use pktauth.Base.{Option, none, some, done, Result, length, All, sum}
use native.Mathlib.Nat.{mul-le-mul_right}
use pktauth.Socket.Counters.{ErrorKind}
use pktauth.Blaster.Blast.{batch}
use pktauth.Blaster.Rates.{
  threads, machine_threads, per_thread_pps, Rate, unpaced, shared, one_each, per_thread_pps-Rate,
}
use pktauth.Blaster.Pace.{Made, made, pause, AtHead, begun, at_once, rested}

-- Up to `most` datagrams, the durations are at most `slack` nanoseconds too short.
abbrev pub IsClose : (ℕ → ℕ → ℕ) → ℕ → ℕ → Type 0
IsClose from_secs slack most =
    (sent pps : ℕ) → 0 < pps → sent ≤ most → sent * 1000000000 ≤ (from_secs sent pps + slack) * pps

-- So many attempts of each thread, at one time.
abbrev pub AllMade : (ℕ → ℕ → ℕ) → ℕ → ℕ → List ℕ → Type 0
AllMade from_secs rate now attempts = All (λ k. Made from_secs rate k now) attempts

module _ (from_secs : ℕ → ℕ → ℕ) (slack most : ℕ) (close : IsClose from_secs slack most) where
  pause-none :
      (pps sent elapsed : ℕ)
      → 0 < pps
      → pause from_secs pps sent elapsed ≡ none
      → from_secs sent pps ≤ elapsed
  unfolding pause
  pause-none pps sent elapsed paced e = ground arith

  pause-some :
      (pps sent elapsed time : ℕ)
      → 0 < pps
      → pause from_secs pps sent elapsed ≡ some time
      → from_secs sent pps ≤ elapsed + time
  unfolding pause
  pause-some pps sent elapsed time paced e = ground arith

  -- After its time, a batch counts as many datagrams as the rate allows.
  in_time :
      (pps sent now : ℕ)
      → 0 < pps
      → sent ≤ most
      → from_secs sent pps ≤ now
      → sent * 1000000000 ≤ (now + slack) * pps
  in_time pps sent now paced few h =
      let wider : (from_secs sent pps + slack) * pps ≤ (now + slack) * pps =
        mul-le-mul_right pps (omega arith) in
      omega (arith, close sent pps paced few, wider)

  -- No thread is ahead of its schedule by more than the batch that it makes.
  AtHead-late :
      (pps batches now : ℕ)
      → 0 < pps
      → batches * batch ≤ most
      → AtHead from_secs pps batches now
      → batches * batch * 1000000000 ≤ (now + slack) * pps
  AtHead-late pps zero now paced few (begun _) = omega arith
  AtHead-late pps (suc batches) later paced few (at_once _ now elapsed _ _ _ e h) =
      in_time pps (suc batches * batch) later paced few
        (omega (arith, pause-none pps (suc batches * batch) elapsed paced e))
  AtHead-late pps (suc batches) later paced few (rested _ now elapsed time _ _ _ e h) =
      in_time pps (suc batches * batch) later paced few
        (omega (arith, pause-some pps (suc batches * batch) elapsed time paced e))

  -- At any time, one batch more at the most.
  Made-Bounded :
      (pps attempts now : ℕ)
      → 0 < pps
      → attempts ≤ most
      → Made from_secs pps attempts now
      → attempts * 1000000000 ≤ (now + slack) * pps + batch * 1000000000
  Made-Bounded pps attempts now paced few (made batches i time _ at by part) =
      let late = AtHead-late pps batches time paced (omega arith) at in
      let wider : (time + slack) * pps ≤ (now + slack) * pps = mul-le-mul_right pps (omega arith) in
      omega (arith, late, wider)

  -- All of them together.
  AllMade-Bounded :
      (rate now : ℕ) (attempts : List ℕ)
      → 0 < rate
      → sum attempts ≤ most
      → AllMade from_secs rate now attempts
      → sum attempts * 1000000000
        ≤ length attempts * ((now + slack) * rate) + length attempts * (batch * 1000000000)
  AllMade-Bounded rate now [] paced few at = omega arith
  AllMade-Bounded rate now (k ∷ attempts) paced few (at, rest) =
      let first = Made-Bounded rate k now paced (omega arith) at in
      let others = AllMade-Bounded rate now attempts paced (omega arith) rest in
      omega (arith, first, others)

  shares-Bounded :
      (pps count rate now : ℕ) (attempts : List ℕ)
      → 0 < pps
      → 0 < count
      → Rate pps count rate
      → length attempts ≡ count
      → sum attempts ≤ most
      → AllMade from_secs rate now attempts
      → sum attempts * 1000000000 ≤ (now + slack) * max pps count + count * batch * 1000000000
  shares-Bounded pps count rate now attempts asked some_thread (unpaced e) size few at =
      absurd (omega (arith, e))
  shares-Bounded pps count rate now attempts asked some_thread (shared zero h within over) size few
        at =
      absurd (omega arith)
  shares-Bounded pps count rate now attempts asked some_thread (shared (suc r) h within over) size
        few at =
      let late = AllMade-Bounded (suc r) now attempts (omega arith) few at in
      let share : suc r * count * (now + slack) ≤ max pps count * (now + slack) =
        mul-le-mul_right (now + slack) (omega arith) in
      let each : length attempts * ((now + slack) * suc r) ≡ suc r * count * (now + slack) =
        ap (λ n. n * ((now + slack) * suc r)) size ∙ omega arith in
      omega (arith, late, share, each, size)
  shares-Bounded pps count rate now attempts asked some_thread (one_each h h') size few at =
      let late = AllMade-Bounded 1 now attempts (omega arith) few at in
      let share : count * (now + slack) ≤ max pps count * (now + slack) =
        mul-le-mul_right (now + slack) (omega arith) in
      let each : length attempts * ((now + slack) * 1) ≡ count * (now + slack) =
        ap (λ n. n * ((now + slack) * 1)) size ∙ omega arith in
      omega (arith, late, share, each, size)

  -- The rate asked for bounds what is sent, but for one batch of each thread: at any time, also in the
  -- middle of batches and of sleeps, the attempts of all threads together are at most `pps` for each
  -- second of `now`, or one for each thread and second where fewer packets than threads are asked for,
  -- and 64 more for each thread, since a thread makes a batch before it first sleeps. Each thread has
  -- run for `now` nanoseconds; the machine's parallelism is positive; a rate is asked for; and for the
  -- numbers of attempts up to `most`, which are not exceeded, the durations computed from
  -- floating-point numbers are at most `slack` nanoseconds too short, which is added to `now`.
  pub paced-Bounded :
      (requested : Option ℕ) (available : Result ℕ ErrorKind) (pps rate now : ℕ) (attempts : List ℕ)
      → 0 < machine_threads available
      → 0 < pps
      → per_thread_pps pps (threads requested available) ≡ done rate
      → length attempts ≡ threads requested available
      → sum attempts ≤ most
      → AllMade from_secs rate now attempts
      → sum attempts * 1000000000
        ≤ (now + slack) * max pps (threads requested available)
          + threads requested available * batch * 1000000000
  paced-Bounded requested available pps rate now attempts machine asked given size few at =
      let (some_thread, rate', given', reason) =
        per_thread_pps-Rate requested available pps machine in
      let same : rate' ≡ rate = cc (given, given') in
      shares-Bounded pps (threads requested available) rate now attempts asked some_thread
        (subst (Rate pps (threads requested available)) same reason) size few at
