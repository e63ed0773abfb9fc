-- ===== src/Blaster/Workers/Accounted.antt =====
-- No answer of `send` is lost or counted twice, in whatever order the threads run.
use pktauth.Base.{ℕ, ◌+◌, ◌%◌, ◌^◌, ◌<◌, List, [], ◌∷◌, ◌≡◌, refl, ap, arith, All}
use pktauth.Base.{Result, ok, err}
use pktauth.Socket.Counters.{ErrorKind}
use pktauth.Blaster.Workers.{Shared, Pc, head, took, counted, failed, finished, Worker, Blaster}
use pktauth.Blaster.Workers.{IsStart, Move, go_on, leave, again, send_ok, send_err, count_sent}
use pktauth.Blaster.Workers.{count_bytes, count_error, Step, work, stop, Reach, start, later}
use pktauth.Blaster.Workers.Total.{total, total-set}

-- What `send` answered: the datagrams taken, their bytes, and the errors.
abbrev pub taken : List (Result ℕ ErrorKind) → ℕ
taken [] = 0
taken (ok n ∷ answers) = 1 + taken answers
taken (err _ ∷ answers) = taken answers

abbrev pub taken_bytes : List (Result ℕ ErrorKind) → ℕ
taken_bytes [] = 0
taken_bytes (ok n ∷ answers) = n + taken_bytes answers
taken_bytes (err _ ∷ answers) = taken_bytes answers

abbrev pub refused : List (Result ℕ ErrorKind) → ℕ
refused [] = 0
refused (ok n ∷ answers) = refused answers
refused (err _ ∷ answers) = 1 + refused answers

-- What a thread has yet to add to each counter.
abbrev pub owed_sent : Pc → ℕ
owed_sent (took n left) = 1
owed_sent _ = 0

abbrev pub owed_bytes : Pc → ℕ
owed_bytes (took n left) = n
owed_bytes (counted n left) = n
owed_bytes _ = 0

abbrev pub owed_errors : Pc → ℕ
owed_errors (failed left) = 1
owed_errors _ = 0

abbrev pub owed : (Pc → ℕ) → List Worker → ℕ
owed weight workers = total (λ w. weight w.pc) workers

-- Each counter and what the threads owe it are what was answered, modulo 2 ^ 64.
pub record IsAccounted (s : Blaster) : Type 0 where
  pub sent :
      (s.shared.stats.sent + owed owed_sent s.workers) % 2 ^ 64 ≡ taken s.shared.answers % 2 ^ 64
  pub bytes :
      (s.shared.stats.bytes + owed owed_bytes s.workers) % 2 ^ 64
      ≡ taken_bytes s.shared.answers % 2 ^ 64
  pub errors :
      (s.shared.stats.errors + owed owed_errors s.workers) % 2 ^ 64
      ≡ refused s.shared.answers % 2 ^ 64
  pub fits :
      (s.shared.stats.sent < 2 ^ 64)
      × (s.shared.stats.bytes < 2 ^ 64)
      × (s.shared.stats.errors < 2 ^ 64)

-- A move keeps a counter's account with what this thread owes it.
abbrev Keeps :
    (Shared → ℕ)
    → (Pc → ℕ)
    → (List (Result ℕ ErrorKind) → ℕ)
    → Shared
    → Worker
    → Shared
    → Worker
    → Type 0
Keeps counter weight answered m w m' w' =
    (counter m' + weight w'.pc + answered m.answers) % 2 ^ 64
    ≡ (counter m + weight w.pc + answered m'.answers) % 2 ^ 64

-- A thread that stands where it owes nothing.
pub owed-zero :
    (weight : Pc → ℕ) (at : Pc) (workers : List Worker)
    → weight at ≡ 0
    → All (λ w. w.pc ≡ at) workers
    → owed weight workers ≡ 0
owed-zero weight at [] h a = refl
owed-zero weight at (w ∷ workers) h a =
    let first : weight w.pc ≡ weight at = ap weight a.0 in
    omega (arith, first, h, owed-zero weight at workers h a.1)

IsStart-IsAccounted : {s : Blaster} → IsStart s → IsAccounted s
IsStart-IsAccounted {s} i = record {
  sent = omega (
    arith,
    ap (λ stats. stats.sent) i.zeroed,
    ap taken i.unsent,
    owed-zero owed_sent head s.workers refl i.waiting,
  );
  bytes = omega (
    arith,
    ap (λ stats. stats.bytes) i.zeroed,
    ap taken_bytes i.unsent,
    owed-zero owed_bytes head s.workers refl i.waiting,
  );
  errors = omega (
    arith,
    ap (λ stats. stats.errors) i.zeroed,
    ap refused i.unsent,
    owed-zero owed_errors head s.workers refl i.waiting,
  );
  fits = (
    omega (arith, ap (λ stats. stats.sent) i.zeroed),
    omega (arith, ap (λ stats. stats.bytes) i.zeroed),
    omega (arith, ap (λ stats. stats.errors) i.zeroed),
  );
}

module _ (to_ne_bytes : ℕ → List ℕ) where
  Move-Keeps :
      (m m' : Shared) (w w' : Worker)
      → Move to_ne_bytes m w m' w'
      → Keeps (λ m. m.stats.sent) owed_sent taken m w m' w'
        × Keeps (λ m. m.stats.bytes) owed_bytes taken_bytes m w m' w'
        × Keeps (λ m. m.stats.errors) owed_errors refused m w m' w'
  Move-Keeps m m' w w' (go_on p r) = ground arith
  Move-Keeps m m' w w' (leave p r) = ground arith
  Move-Keeps m m' w w' (again p) = ground arith
  Move-Keeps m m' w w' (send_ok left n initial rng p d) = ground arith
  Move-Keeps m m' w w' (send_err left kind initial rng p d) = ground arith
  Move-Keeps m m' w w' (count_sent n left p) = ground arith
  Move-Keeps m m' w w' (count_bytes n left p) = ground arith
  Move-Keeps m m' w w' (count_error left p) = ground arith

  Move-fits :
      (m m' : Shared) (w w' : Worker)
      → Move to_ne_bytes m w m' w'
      → (m.stats.sent < 2 ^ 64) × (m.stats.bytes < 2 ^ 64) × (m.stats.errors < 2 ^ 64)
      → (m'.stats.sent < 2 ^ 64) × (m'.stats.bytes < 2 ^ 64) × (m'.stats.errors < 2 ^ 64)
  Move-fits m m' w w' (go_on p r) h = h
  Move-fits m m' w w' (leave p r) h = h
  Move-fits m m' w w' (again p) h = h
  Move-fits m m' w w' (send_ok left n initial rng p d) h = h
  Move-fits m m' w w' (send_err left kind initial rng p d) h = h
  Move-fits m m' w w' (count_sent n left p) h = omega arith
  Move-fits m m' w w' (count_bytes n left p) h = omega arith
  Move-fits m m' w w' (count_error left p) h = omega arith

  Step-IsAccounted : {s t : Blaster} → Step to_ne_bytes s t → IsAccounted s → IsAccounted t
  Step-IsAccounted {s} (work i w w' m at mv) a =
      let (sent, bytes, errors) = Move-Keeps s.shared m w w' mv in
      record {
        sent = omega (arith, sent, a.sent, total-set (λ w. owed_sent w.pc) s.workers i w w' at);
        bytes = omega (arith, bytes, a.bytes, total-set (λ w. owed_bytes w.pc) s.workers i w w' at);
        errors =
            omega (arith, errors, a.errors, total-set (λ w. owed_errors w.pc) s.workers i w w' at);
        fits = Move-fits s.shared m w w' mv a.fits;
      }
  Step-IsAccounted (stop r) a = record {
    sent = a.sent;
    bytes = a.bytes;
    errors = a.errors;
    fits = a.fits;
  }

  Reach-IsAccounted : {s : Blaster} → Reach to_ne_bytes s → IsAccounted s
  Reach-IsAccounted (start i) = IsStart-IsAccounted i
  Reach-IsAccounted (later r st) = Step-IsAccounted st (Reach-IsAccounted r)

  -- Whatever the order in which the threads ran: once all have finished, `sent`, `bytes` and
  -- `errors` are the datagrams that `send` took, their bytes, and its errors, modulo 2 ^ 64. No
  -- update is lost and none is made twice.
  pub Reach-Counted :
      (s : Blaster)
      → Reach to_ne_bytes s
      → All (λ w. w.pc ≡ finished) s.workers
      → s.shared.stats ≡ record {
        sent = taken s.shared.answers % 2 ^ 64;
        bytes = taken_bytes s.shared.answers % 2 ^ 64;
        errors = refused s.shared.answers % 2 ^ 64;
      }
  Reach-Counted s r joined =
      let a = Reach-IsAccounted r in
      let sent : s.shared.stats.sent ≡ taken s.shared.answers % 2 ^ 64 =
        omega (arith, a.sent, a.fits, owed-zero owed_sent finished s.workers refl joined) in
      let bytes : s.shared.stats.bytes ≡ taken_bytes s.shared.answers % 2 ^ 64 =
        omega (arith, a.bytes, a.fits, owed-zero owed_bytes finished s.workers refl joined) in
      let errors : s.shared.stats.errors ≡ refused s.shared.answers % 2 ^ 64 =
        omega (arith, a.errors, a.fits, owed-zero owed_errors finished s.workers refl joined) in
      λ i. record { sent = sent i; bytes = bytes i; errors = errors i }
