-- ===== src/Socket/Recv.antt =====
-- src/socket.rs: `poll_recv`. The operating system's side is explicit: the queue of what
-- `try_recv_from` will answer, where the end of the queue answers `WouldBlock`, and the answers of
-- `poll_recv_ready`, where the end answers `Pending`. The waker is left out. A caller that brings no
-- buffers at all never has an answer from the code while the socket is readable; here the loop ends
-- with the list of the answers, so a run without buffers says nothing of it.
pub mod Delivered
pub mod Drain
pub mod Step
pub mod Loop
pub mod PollRecv
pub mod Calls
use pktauth.Base.{ℕ, ◌+◌, List, [], ◌∷◌, ◌++◌, Option, none, some, Bool, true, false, min, ltb}
use pktauth.Base.{
  Run, done, panic, ◌>>=◌, expect, Result, ok, err, length, take, drop, slice, get_elem?, set,
}
use pktauth.Base.{if◌then◌else◌}
use pktauth.Net.{SocketAddr, IpAddr}
use pktauth.Auth.Cipher.{Aes128}
use pktauth.Auth.Verify.{Verdict}
use pktauth.Auth.Authenticator.{Authenticator, check}
use pktauth.Socket.Counters.{
  PacketSocket, Counters, fetch_add, ErrorKind, would_block, is_transient,
}
use pktauth.Socket.Counters.{Poll, ready, pending}

-- What one `try_recv_from` takes off the socket: a datagram, or a queued error.
pub data Arrival : Type 0 where
  datagram : List ℕ → SocketAddr → Arrival
  failed : ErrorKind → Arrival

-- The fields of Quinn's `RecvMeta` that the code sets; the others stay at their defaults.
pub record RecvMeta : Type 0 where
  pub addr : SocketAddr
  pub len : ℕ
  pub stride : ℕ

-- The socket, the caller's buffers and metadata, and the next slot to fill.
pub record Receiving : Type 0 where
  pub socket : PacketSocket
  pub bufs : List (List ℕ)
  pub meta : List RecvMeta
  pub filled : ℕ

-- How one round of the inner loop goes on.
pub data Round : Type 0 where
  go_on : Receiving → Round
  stop : Receiving → Round
  fail : ErrorKind → Receiving → Round

-- `received` and `received_bytes` after a datagram of `len` bytes.
abbrev pub count_received : ℕ → PacketSocket → PacketSocket
count_received len socket = record socket {
  counters = record (socket.counters) {
    received = fetch_add socket.counters.received 1;
    received_bytes = fetch_add socket.counters.received_bytes len;
  };
}

abbrev pub count_rejected : PacketSocket → PacketSocket
count_rejected socket = record socket {
  counters = record (socket.counters) { rejected = fetch_add socket.counters.rejected 1 };
}

-- How the inner loop ends.
pub data Ended : Type 0 where
  stopped : Receiving → Ended
  broken : ErrorKind → Receiving → Ended

-- What `poll_recv` leaves behind: its answer, the final state and the rest of the queue.
pub record Polled : Type 0 where
  pub answer : Poll (Result ℕ ErrorKind)
  pub state : Receiving
  pub queue : List Arrival

module _ (aes : Aes128) where
  -- The verdict on the `len` bytes that were read; without an authenticator everything passes.
  unfoldable pub authenticate : Option Authenticator → List ℕ → ℕ → IpAddr → Run Bool
  authenticate none buf len from = done true
  authenticate (some authenticator) buf len from = do
    bytes ← expect (slice buf 0 len)
    verdict ← check aes authenticator bytes from
    done (elim verdict [ ok _ ↦ true | err _ ↦ false ])

  -- A datagram that passed is described in the next slot, if there is one.
  unfoldable pub hand_over : Receiving → SocketAddr → ℕ → Round
  hand_over s from len = elim (get_elem? s.meta s.filled) [
    | none ↦ stop s
    | some _ ↦ go_on (record s {
      meta = set s.meta s.filled (record { addr = from; len = len; stride = len });
      filled = s.filled + 1;
    })
  ]

  unfoldable pub receive_one : Receiving → List ℕ → Arrival → Run Round
  receive_one s buf (datagram payload from) =
      let len = min (length payload) (length buf) in
      let buf' = take len payload ++ drop len buf in
      let s' = record s { socket = count_received len s.socket; bufs = set s.bufs s.filled buf' } in
      do
        passed ← authenticate s.socket.authenticator buf' len from.ip
        done (
            if passed
            then hand_over s' from len
            else go_on (record s' { socket = count_rejected s'.socket }))
  receive_one s buf (failed would_block) = done (stop s)
  receive_one s buf (failed kind) =
      done (if is_transient kind then stop s else if ltb 0 s.filled then stop s else fail kind s)

  -- `while let Some(buf) = bufs.get_mut(filled)`; the result is the end and what is left in the
  -- queue.
  unfoldable pub recv_loop : List Arrival → Receiving → Run (Ended × List Arrival)
  recv_loop [] s = done (stopped s, [])
  recv_loop (arrival ∷ queue) s = elim (get_elem? s.bufs s.filled) [
    | none ↦ done (stopped s, arrival ∷ queue)
    | some buf ↦ receive_one s buf arrival >>= λ round. elim round [
      | go_on s' ↦ recv_loop queue s'
      | stop s' ↦ done (stopped s', queue)
      | fail kind s' ↦ done (broken kind s', queue)
    ]
  ]

  -- The outer loop, over the answers of `poll_recv_ready`.
  unfoldable pub poll_loop :
      List (Poll (Result (Unit {0}) ErrorKind)) → List Arrival → Receiving → Run Polled
  poll_loop [] queue s = done (record { answer = pending; state = s; queue = queue })
  poll_loop (pending ∷ _) queue s = done (record { answer = pending; state = s; queue = queue })
  poll_loop (ready (err kind) ∷ _) queue s =
      done (record { answer = ready (err kind); state = s; queue = queue })
  poll_loop (ready (ok _) ∷ readiness) queue s = do
    (ended, queue') ← recv_loop queue (record s { filled = 0 })
    elim ended [
      | broken kind s' ↦ done (record { answer = ready (err kind); state = s'; queue = queue' })
      | stopped s' ↦
          let again = poll_loop readiness queue' s' in
          if ltb 0 s'.filled
          then done (record { answer = ready (ok s'.filled); state = s'; queue = queue' })
          else again
    ]

  unfoldable pub poll_recv :
      PacketSocket
      → List (List ℕ)
      → List RecvMeta
      → List (Poll (Result (Unit {0}) ErrorKind))
      → List Arrival
      → Run Polled
  poll_recv socket bufs meta readiness queue =
      poll_loop readiness queue (record { socket = socket; bufs = bufs; meta = meta; filled = 0 })
