-- ===== src/Socket/Send.antt =====
-- src/socket.rs: the send path, from `send_datagram` to `poll_send`. The operating system's side is
-- explicit: the answers of `try_send_to`, where the end answers `WouldBlock`, and the answers of
-- the writable futures, where the end answers `Pending`. The waker is left out.
pub mod Answers
pub mod Parts
pub mod PollSend
pub mod Attempts
use pktauth.Base.{ℕ, List, [], ◌∷◌, ◌++◌, Option, none, some, Bool, true, false}
use pktauth.Base.{Run, done, ◌>>=◌, Result, ok, err}
use pktauth.Base.Chunks.{chunks}
use pktauth.Net.{SocketAddr}
use pktauth.Socket.Counters.{PacketSocket, Counters, fetch_add, ErrorKind, would_block}
use pktauth.Socket.Counters.{Poll, ready, pending}

-- The fields of Quinn's `Transmit` that the code reads.
pub record Transmit : Type 0 where
  pub destination : SocketAddr
  pub contents : List ℕ
  pub segment_size : Option ℕ

-- The socket, the datagrams that left it, first to last, and the system's answers to come.
pub record Sending : Type 0 where
  pub socket : PacketSocket
  pub wire : List (SocketAddr × List ℕ)
  pub answers : List (Result ℕ ErrorKind)

-- `sent` and `sent_bytes` after a datagram of `n` bytes.
abbrev pub count_sent : ℕ → PacketSocket → PacketSocket
count_sent n socket = record socket {
  counters = record (socket.counters) {
    sent = fetch_add socket.counters.sent 1;
    sent_bytes = fetch_add socket.counters.sent_bytes n;
  };
}

unfoldable pub send_after :
    List (Result ℕ ErrorKind)
    → SocketAddr
    → List ℕ
    → Sending
    → Result (Unit {0}) ErrorKind × Sending
send_after [] destination contents s = (err would_block, s)
send_after (err kind ∷ answers) destination contents s = (err kind, record s { answers = answers })
send_after (ok n ∷ answers) destination contents s = (
  ok tt,
  record s {
    socket = count_sent n s.socket;
    wire = s.wire ++ ((destination, contents) ∷ []);
    answers = answers;
  },
)

unfoldable pub send_datagram : SocketAddr → List ℕ → Sending → Result (Unit {0}) ErrorKind × Sending
send_datagram destination contents s = send_after s.answers destination contents s

-- The loop over the segments of a batch, which the first error ends.
unfoldable pub send_segments :
    SocketAddr → List (List ℕ) → Sending → Result (Unit {0}) ErrorKind × Sending
send_segments destination [] s = (ok tt, s)
send_segments destination (datagram ∷ rest) s =
    let (answer, s') = send_datagram destination datagram s in
    elim answer [ err kind ↦ (err kind, s') | ok _ ↦ send_segments destination rest s' ]

unfoldable pub try_send : Transmit → Sending → Run (Result (Unit {0}) ErrorKind × Sending)
try_send transmit s = elim transmit.segment_size [
  | none ↦ done (send_datagram transmit.destination transmit.contents s)
  | some segment_size ↦ do
    parts ← chunks segment_size transmit.contents
    done (send_segments transmit.destination parts s)
]

abbrev pub max_transmit_segments : ℕ
max_transmit_segments = 1

-- `PacketSender`: what it sends through, and whether a writable future is installed.
pub record PacketSender : Type 0 where
  pub sending : Sending
  pub writable : Bool

abbrev pub create_sender : Sending → PacketSender
create_sender socket = record { sending = socket; writable = false }

unfoldable pub poll_send :
    List (Poll (Result (Unit {0}) ErrorKind))
    → Transmit
    → PacketSender
    → Run (Poll (Result (Unit {0}) ErrorKind) × PacketSender)
poll_send [] transmit sender = done (pending, record sender { writable = true })
poll_send (pending ∷ _) transmit sender = done (pending, record sender { writable = true })
poll_send (ready (err kind) ∷ _) transmit sender =
    done (ready (err kind), record sender { writable = false })
poll_send (ready (ok _) ∷ readiness) transmit sender = try_send transmit sender.sending >>= λ tried.
    elim tried.0 [
      | ok _ ↦ done (ready (ok tt), record { sending = tried.1; writable = false })
      | err would_block ↦
          poll_send readiness transmit (record { sending = tried.1; writable = false })
      | err _ ↦ done (ready (ok tt), record { sending = tried.1; writable = false })
    ]
