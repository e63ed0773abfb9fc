-- ===== src/Socket/Recv/Calls/Received.antt =====
-- What repeated calls of `poll_recv` hand over.
use pktauth.Base.{ℕ, ◌-◌, ◌≤◌, List, [], ◌∷◌, ◌++◌, ◌≡◌, refl, sym, ap, ap₂, ◌∙◌, Option}
use pktauth.Base.{done, inl, inr, Bool-cases, All, length, append_assoc, subst, arith}
use pktauth.Auth.Cipher.{Aes128}
use pktauth.Auth.Authenticator.{Authenticator}
use pktauth.Socket.Counters.{PacketSocket}
use pktauth.Socket.Recv.{Arrival, datagram, failed, Polled, poll_recv}
use pktauth.Socket.Recv.Delivered.{delivered}
use pktauth.Socket.Recv.Drain.{IsRaw, keep, tally, count_one, passes, truncated}
use pktauth.Socket.Recv.PollRecv.{
  Readiness, Answers, handed_over, waits, reports, Delivers, keep-append, tally-append, All-right,
}
use pktauth.Socket.Recv.PollRecv.Rounds.{poll_recv-Delivers}
use pktauth.Socket.Recv.Calls.{Call, IsCall, Session, taken, ready_calls, poll_calls}
use pktauth.Socket.Recv.Calls.Progress.{poll_recv-takes}

-- A front of the queue was taken and counted, what passes of it was handed over, and each call on a
-- readable socket took an arrival while there was one.
pub record Received (aes : Aes128) (size : ℕ) (socket : PacketSocket) (queue : List Arrival)
    (calls : List Call) (s : Session) : Type 0 where
  pub consumed : List Arrival
  pub split : queue ≡ consumed ++ s.queue
  pub handed_over : s.packets ≡ keep aes socket.authenticator size consumed
  pub counted : s.socket ≡ tally aes socket.authenticator size consumed socket
  pub progress : length s.queue ≤ length queue - ready_calls calls

module _ (aes : Aes128) where
  taken-keep :
      (authenticator : Option Authenticator) (size : ℕ) (readiness : Readiness)
      (consumed : List Arrival) (p : Polled)
      → Answers aes authenticator size readiness consumed p
      → taken p ≡ keep aes authenticator size consumed
  unfolding delivered
  taken-keep authenticator size readiness consumed p (handed_over n a pos fits described e) = rw a e
  taken-keep authenticator size readiness consumed p (waits a e) = rw a (sym e)
  taken-keep authenticator size readiness consumed p (reports kind a e why) = rw a (sym e)

  tally-authenticator :
      (authenticator : Option Authenticator) (size : ℕ) (queue : List Arrival)
      (socket : PacketSocket)
      → (tally aes authenticator size queue socket).authenticator ≡ socket.authenticator
  unfolding tally
  tally-authenticator authenticator size [] socket = refl
  tally-authenticator authenticator size (datagram payload from ∷ queue) socket =
      tally-authenticator authenticator size queue
        (count_one aes authenticator size payload from socket)
      ∙ elim (Bool-cases
          (passes aes authenticator size (truncated aes authenticator size payload from))) [
            | inl e ↦ rw e refl
            | inr e ↦ rw e refl
          ]
  tally-authenticator authenticator size (failed kind ∷ queue) socket =
      tally-authenticator authenticator size queue socket

  -- One call before the others.
  call-Received :
      (size : ℕ) (socket : PacketSocket) (queue : List Arrival) (call : Call) (calls : List Call)
      (p : Polled) (s : Session)
      → IsCall size call
      → poll_recv aes socket call.bufs call.meta call.readiness queue ≡ done p
      → Delivers aes socket.authenticator size call.readiness queue socket p
      → Received aes size p.state.socket p.queue calls s
      → Received aes size socket queue (call ∷ calls) (record s { packets = taken p ++ s.packets })
  call-Received size socket queue call calls p s is runs d later =
      let kept : p.state.socket.authenticator ≡ socket.authenticator =
        ap (λ k. k.authenticator) d.counted
        ∙ tally-authenticator socket.authenticator size d.consumed socket in
      let fewer =
        poll_recv-takes aes socket call.bufs call.meta call.readiness queue p is.some_buf runs in
      record {
        consumed = d.consumed ++ later.consumed;
        split =
            d.split
            ∙ ap (λ t. d.consumed ++ t) later.split
            ∙ sym (append_assoc d.consumed later.consumed s.queue);
        handed_over =
            rw
              (
                taken-keep socket.authenticator size call.readiness d.consumed p d.answers,
                later.handed_over,
                kept,
                keep-append aes socket.authenticator size d.consumed later.consumed,
              )
              refl;
        counted =
            later.counted
            ∙ ap₂ (λ a k. tally aes a size later.consumed k) kept d.counted
            ∙ sym (tally-append aes socket.authenticator size d.consumed later.consumed socket);
        progress = omega (arith, later.progress);
      }

  -- However many calls of `poll_recv`, with equal buffers of one size: none panics; together they
  -- hand over, in order, exactly the datagrams of a front of the queue that pass, and count that
  -- front. Each call whose socket is readable at once takes an arrival while there is one, so as
  -- many such calls as there are arrivals leave none.
  pub poll_calls-Received :
      (size : ℕ) (socket : PacketSocket) (queue : List Arrival) (calls : List Call)
      → All (IsCall size) calls
      → All IsRaw queue
      → (s : Session) × (poll_calls aes socket queue calls ≡ done s)
        × Received aes size socket queue calls s
  unfolding poll_calls keep tally
  poll_calls-Received size socket queue [] are raw = (
    record { packets = []; socket = socket; queue = queue },
    refl,
    record {
      consumed = [];
      split = refl;
      handed_over = refl;
      counted = refl;
      progress = omega arith;
    },
  )
  poll_calls-Received size socket queue (call ∷ calls) are raw =
      let (p, runs, d) =
        poll_recv-Delivers aes size socket call.bufs call.meta call.readiness queue are.0.same
          are.0.described raw in
      let left : All IsRaw p.queue =
        All-right aes socket.authenticator size d.consumed p.queue
          (subst (All IsRaw) d.split raw) in
      let (s, later, received) = poll_calls-Received size p.state.socket p.queue calls are.1 left in
      (
        record s { packets = taken p ++ s.packets },
        rw (runs, later) refl,
        call-Received size socket queue call calls p s are.0 runs d received,
      )
