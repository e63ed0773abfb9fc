-- ===== src/Blaster/Rates.antt =====
-- src/bin/blaster.rs: how `main` chooses the number of threads and the rate of each. What
-- `available_parallelism` answers is an argument.
use pktauth.Base.{
  ℕ, zero, suc, ◌*◌, ◌+◌, ◌/◌, ◌≤◌, ◌<◌, max, Option, none, some, ◌==◌, if◌then◌else◌,
}
use pktauth.Base.{
  Run, done, panic, Result, ok, err, ◌≡◌, refl, arith, ne→==, ltb, Bool-cases, inl, inr,
}
use pktauth.Socket.Counters.{ErrorKind}
use native.Mathlib.Nat.{div-mul-le_self, lt-div-mul-add, div-eq_of_lt, le-div_iff_mul-le}

abbrev pub machine_threads : Result ℕ ErrorKind → ℕ
machine_threads (ok n) = n
machine_threads (err _) = 1

unfoldable pub threads : Option ℕ → Result ℕ ErrorKind → ℕ
threads none available = machine_threads available
threads (some zero) available = machine_threads available
threads (some (suc n)) available = suc n

-- A division by zero panics.
unfoldable pub per_thread_pps : ℕ → ℕ → Run ℕ
per_thread_pps zero count = done 0
per_thread_pps (suc pps) count = if count == 0 then panic else done (max (suc pps / count) 1)

-- The rate of each of `count` threads for a rate of `pps` that was asked for.
pub data Rate (pps count : ℕ) : ℕ → Type 0 where
  unpaced : pps ≡ 0 → Rate pps count 0
  shared :
      (rate : ℕ)
      → count ≤ pps
      → rate * count ≤ pps
      → pps < rate * count + count
      → Rate pps count rate
  one_each : 0 < pps → pps < count → Rate pps count 1

threads_positive :
    (requested : Option ℕ) (available : Result ℕ ErrorKind)
    → 0 < machine_threads available
    → 0 < threads requested available
unfolding threads
threads_positive none available h = h
threads_positive (some zero) available h = h
threads_positive (some (suc n)) available h = omega arith

share_out :
    (pps count : ℕ)
    → 0 < count
    → (rate : ℕ) × (per_thread_pps pps count ≡ done rate) × Rate pps count rate
unfolding per_thread_pps
share_out zero count h = (0, refl, unpaced refl)
share_out (suc pps) count h = elim (Bool-cases (ltb (suc pps) count)) [
  | inl few ↦
      let below : suc pps < count = ground arith in
      let none_each : suc pps / count ≡ 0 = div-eq_of_lt below in
      let one : max (suc pps / count) 1 ≡ 1 = omega arith in
      (1, rw (ne→== count 0 (λ e. omega (arith, e)), one) refl, one_each (omega arith) below)
  | inr enough ↦
      let above : count ≤ suc pps = ground arith in
      let some_each : 1 ≤ suc pps / count =
        (le-div_iff_mul-le {x = 1} {y = suc pps} h).1 (omega arith) in
      let same : max (suc pps / count) 1 ≡ suc pps / count = omega arith in
      (
        suc pps / count,
        rw (ne→== count 0 (λ e. omega (arith, e)), same) refl,
        shared (suc pps / count) above (div-mul-le_self (suc pps) count) (lt-div-mul-add h),
      )
]

-- Where the machine's parallelism is positive, `main` starts at least one thread and its division
-- of the rate does not panic. No rate stays no rate; a rate of at least one packet for each thread
-- is shared out, with less than one packet for each thread lost; and a smaller one is raised to one
-- packet for each thread, which is then more than was asked for.
pub per_thread_pps-Rate :
    (requested : Option ℕ) (available : Result ℕ ErrorKind) (pps : ℕ)
    → 0 < machine_threads available
    → (0 < threads requested available)
      × (rate : ℕ) × (per_thread_pps pps (threads requested available) ≡ done rate)
      × Rate pps (threads requested available) rate
per_thread_pps-Rate requested available pps h =
    let positive = threads_positive requested available h in
    let (rate, returned, reason) = share_out pps (threads requested available) positive in
    (positive, rate, returned, reason)
