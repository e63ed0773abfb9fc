-- ===== src/Socket/Recv/Calls.antt =====
-- src/socket.rs: `poll_recv` called again and again, as an endpoint does to drain the socket.
pub mod Progress
pub mod Received
pub mod Arrives
use pktauth.Base.{
  ℕ, zero, suc, ◌+◌, ◌-◌, ◌<◌, ◌≤◌, List, [], ◌∷◌, ◌++◌, ◌≡◌, refl, sym, ap, ◌∙◌, Option,
}
use pktauth.Base.{Run, done, ◌>>=◌, Result, ok, err, All, length, append_assoc, subst, arith}
use pktauth.Auth.Cipher.{Aes128}
use pktauth.Auth.Authenticator.{Authenticator}
use pktauth.Socket.Counters.{PacketSocket, Poll, ready, pending, ErrorKind}
use pktauth.Socket.Recv.{Arrival, datagram, failed, RecvMeta, Polled, poll_recv}
use pktauth.Socket.Recv.Delivered.{Packet, delivered}
use pktauth.Socket.Recv.Drain.{IsRaw, keep, tally}
use pktauth.Socket.Recv.PollRecv.{
  Readiness, Answers, handed_over, waits, reports, Delivers, keep-append, tally-append, All-right,
}
use pktauth.Socket.Recv.PollRecv.Counts.{handed}
use pktauth.Socket.Recv.PollRecv.Rounds.{poll_recv-Delivers}

-- What a call brings: the buffers, room for their descriptions, and the answers of
-- `poll_recv_ready` during it.
pub record Call : Type 0 where
  pub bufs : List (List ℕ)
  pub meta : List RecvMeta
  pub readiness : Readiness

pub record IsCall (size : ℕ) (call : Call) : Type 0 where
  pub same : All (λ buf. length buf ≡ size) call.bufs
  pub some_buf : 0 < length call.bufs
  pub described : length call.bufs ≤ length call.meta

-- What the calls leave: the packets handed over, the socket, and the rest of the queue.
pub record Session : Type 0 where
  pub packets : List Packet
  pub socket : PacketSocket
  pub queue : List Arrival

-- The slots that the caller reads after an answer.
abbrev pub taken : Polled → List Packet
taken p = delivered (handed p) p.state.bufs p.state.meta

-- The calls whose socket is readable at once.
abbrev pub ready_first : Readiness → ℕ
ready_first [] = 0
ready_first (pending ∷ readiness) = 0
ready_first (ready (ok _) ∷ readiness) = 1
ready_first (ready (err kind) ∷ readiness) = 0

abbrev pub ready_calls : List Call → ℕ
ready_calls [] = 0
ready_calls (call ∷ calls) = ready_first call.readiness + ready_calls calls

module _ (aes : Aes128) where
  unfoldable pub poll_calls : PacketSocket → List Arrival → List Call → Run Session
  poll_calls socket queue [] = done (record { packets = []; socket = socket; queue = queue })
  poll_calls socket queue (call ∷ calls) = do
    p ← poll_recv aes socket call.bufs call.meta call.readiness queue
    later ← poll_calls p.state.socket p.queue calls
    done (record later { packets = taken p ++ later.packets })
