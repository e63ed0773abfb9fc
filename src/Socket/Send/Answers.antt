-- ===== src/Socket/Send/Answers.antt =====
-- What the operating system answered during a call of `poll_send`: to its sends, where the end of the
-- list answers `WouldBlock`, and to its polls of the writable future.
use pktauth.Base.{ℕ, zero, suc, List, [], ◌∷◌, ◌++◌, replicate, ◌≡◌, Result, ok, err}
use pktauth.Socket.Counters.{ErrorKind, would_block, Poll, ready, pending}

-- So many sends in a row were taken.
pub data Taken : ℕ → List (Result ℕ ErrorKind) → List (Result ℕ ErrorKind) → Type 0 where
  no_send : (answers : List (Result ℕ ErrorKind)) → Taken zero answers answers
  took :
      {k : ℕ} {answers rest : List (Result ℕ ErrorKind)} (n : ℕ)
      → Taken k answers rest
      → Taken (suc k) (ok n ∷ answers) rest

-- The next send met an error.
pub data Meets (kind : ErrorKind)
    : List (Result ℕ ErrorKind) → List (Result ℕ ErrorKind) → Type 0 where
  answered : (answers : List (Result ℕ ErrorKind)) → Meets kind (err kind ∷ answers) answers
  at_end : kind ≡ would_block → Meets kind [] []

-- Attempts, each of which was taken so many times and then found no room.
pub data Blocked : List ℕ → List (Result ℕ ErrorKind) → List (Result ℕ ErrorKind) → Type 0 where
  no_attempt : (answers : List (Result ℕ ErrorKind)) → Blocked [] answers answers
  attempt :
      {ks : List ℕ} {answers middle next rest : List (Result ℕ ErrorKind)} (k : ℕ)
      → Taken k answers middle
      → Meets would_block middle next
      → Blocked ks next rest
      → Blocked (k ∷ ks) answers rest

abbrev pub Readiness : Type 0
Readiness = List (Poll (Result (Unit {0}) ErrorKind))

-- The socket was reported writable for so many attempts, and then came the rest.
abbrev pub WritableFor : ℕ → Readiness → Readiness → Type 0
WritableFor attempts readiness rest = readiness ≡ replicate attempts (ready (ok tt)) ++ rest

-- Nothing, or that the socket is not writable yet.
pub data IsPending : Readiness → Type 0 where
  ran_out : IsPending []
  not_yet : (rest : Readiness) → IsPending (pending ∷ rest)
