-- ===== src/Socket/Tests.antt =====
-- Runs of `poll_recv`, and the theorems at them.
use pktauth.Base.{ℕ, List, [], ◌∷◌, ◌++◌, ◌≡◌, refl, some, done, ok, All, replicate, arith}
use pktauth.Net.{SocketAddr, v4, v6}
use pktauth.Auth.Direction.{client_to_server, key, from_selector}
use pktauth.Auth.StandIn.{sum_cipher, alice, bob, server, with_token}
use pktauth.Auth.Tag.{tag}
use pktauth.Auth.Verify.{
  verify, with_fields, check_fields, check_tag, constant_time_eq, fold_differences,
}
use pktauth.Auth.Cid.{destination_cid}
use pktauth.Auth.Authenticator
use pktauth.Auth.Authenticator.{check}
use pktauth.Socket.Counters.{PacketSocket, bound, ready, connection_refused}
use pktauth.Socket.Recv.{
  Arrival, datagram, failed, RecvMeta, Polled, poll_recv, poll_loop, recv_loop, receive_one,
  authenticate, hand_over,
}
use pktauth.Socket.Recv.Delivered.{delivered}
use pktauth.Socket.Recv.PollRecv.{Readiness, Delivers}
use pktauth.Socket.Recv.PollRecv.Rounds.{poll_recv-Delivers}
use pktauth.Socket.Recv.PollRecv.Admitted.{IsAuthentic, poll_recv-IsAuthentic}
use pktauth.Socket.Recv.PollRecv.Counts.{Counted, handed, poll_recv-Counted}
use mathlib.Core.List.{zip}
use pktauth.Base.{◌≢◌, none, err, Result, false}
use pktauth.Base.Chunks.{chunks}
use pktauth.Socket.Counters.{Poll, ErrorKind, would_block}
use pktauth.Socket.Send.{Transmit, PacketSender, count_sent, send_after, send_datagram}
use pktauth.Socket.Send.{send_segments, try_send, poll_send}
use pktauth.Socket.Send.Parts.{IsParts}
use pktauth.Socket.Send.Attempts.{Attempted, poll_send-Attempted}
use pktauth.Socket.Send.PollSend.{unset, Sent, poll_send-Sent}
use pktauth.Socket.Recv.PollRecv.{Readiness}
use pktauth.Socket.Counters.{pending}
use pktauth.Socket.Recv.Calls.{Call, IsCall, Session, poll_calls}
use pktauth.Socket.Recv.Calls.Received.{Received, poll_calls-Received}

abbrev guarded : PacketSocket
guarded = bound (some (Authenticator.new client_to_server server))

abbrev from_alice : SocketAddr
from_alice = record { ip = v4 alice; port = 4433 }

abbrev from_bob : SocketAddr
from_bob = record { ip = v4 bob; port = 9 }

abbrev bufs : List (List ℕ)
bufs = replicate 40 0 ∷ replicate 40 0 ∷ []

abbrev meta : List RecvMeta
meta =
    let unset : RecvMeta = record { addr = record { ip = v6 []; port = 0 }; len = 0; stride = 0 } in
    unset ∷ unset ∷ []

-- A replay from Bob, then Alice's own datagram, then a queued ICMP error.
abbrev queue : List Arrival
queue =
    datagram with_token from_bob ∷ datagram with_token from_alice ∷ failed connection_refused ∷ []

abbrev readiness : Readiness
readiness = ready (ok tt) ∷ []

abbrev polled : Polled
polled = record {
  answer = ready (ok 1);
  state = record {
    socket = record {
      authenticator = some (Authenticator.new client_to_server server);
      counters = record {
        sent = 0;
        sent_bytes = 0;
        received = 2;
        received_bytes = 46;
        rejected = 1;
      };
    };
    bufs = (with_token ++ replicate 17 0) ∷ replicate 40 0 ∷ [];
    meta =
        record { addr = from_alice; len = 23; stride = 23 }
        ∷ record { addr = record { ip = v6 []; port = 0 }; len = 0; stride = 0 }
        ∷ [];
    filled = 1;
  };
  queue = [];
}

poll_recv-polled : poll_recv sum_cipher guarded bufs meta readiness queue ≡ done polled
unfolding poll_recv poll_loop recv_loop receive_one authenticate hand_over check destination_cid
    verify with_fields check_fields check_tag tag key from_selector constant_time_eq
    fold_differences zip
poll_recv-polled = refl

poll_recv-Delivers_example :
    (p : Polled) × (poll_recv sum_cipher guarded bufs meta readiness queue ≡ done p)
    × Delivers sum_cipher guarded.authenticator 40 readiness queue guarded p
poll_recv-Delivers_example =
    poll_recv-Delivers sum_cipher 40 guarded bufs meta readiness queue (omega arith) (omega arith)
      (omega arith)

poll_recv-IsAuthentic_example :
    All
      (IsAuthentic sum_cipher (Authenticator.new client_to_server server))
      (delivered 1 polled.state.bufs polled.state.meta)
poll_recv-IsAuthentic_example =
    poll_recv-IsAuthentic sum_cipher (Authenticator.new client_to_server server) 40 guarded bufs
      meta readiness queue polled 1 refl (omega arith) (omega arith) (omega arith) poll_recv-polled
      refl

poll_recv-Counted_example :
    (p : Polled) × (consumed : List Arrival) × (poll_recv sum_cipher guarded bufs meta readiness
        queue
      ≡ done p)
    × (queue ≡ consumed ++ p.queue)
    × Counted sum_cipher guarded.authenticator 40 guarded p.state.socket consumed (handed p)
poll_recv-Counted_example =
    poll_recv-Counted sum_cipher 40 guarded bufs meta readiness queue (omega arith) (omega arith)
      (omega arith) (omega arith) (omega arith)

-- Two refusals, and then the datagram goes out.
abbrev crowded : PacketSender
crowded = record {
  sending = record {
    socket = guarded;
    wire = [];
    answers = err would_block ∷ err would_block ∷ ok 4 ∷ [];
  };
  writable = false;
}

abbrev small : Transmit
small = record { destination = from_alice; contents = 1 ∷ 2 ∷ 3 ∷ 4 ∷ []; segment_size = none }

abbrev halves : Transmit
halves = record { destination = from_alice; contents = 1 ∷ 2 ∷ 3 ∷ 4 ∷ []; segment_size = some 3 }

abbrev always_ready : List (Poll (Result (Unit {0}) ErrorKind))
always_ready = ready (ok tt) ∷ ready (ok tt) ∷ ready (ok tt) ∷ []

poll_send-crowded :
    poll_send always_ready small crowded
    ≡ done (
      ready (ok tt),
      record {
        sending = record {
          socket = count_sent 4 guarded;
          wire = (from_alice, 1 ∷ 2 ∷ 3 ∷ 4 ∷ []) ∷ [];
          answers = [];
        };
        writable = false;
      },
    )
unfolding poll_send try_send send_datagram send_after
poll_send-crowded = refl

-- The system has room for the first datagram of a batch only, and then for the whole batch.
abbrev cut_short : PacketSender
cut_short = record crowded {
  sending = record (crowded.sending) { answers = ok 3 ∷ err would_block ∷ ok 3 ∷ ok 1 ∷ [] };
}

-- A batch whose second datagram met no room is sent again from its start.
poll_send_again :
    (sender : PacketSender) × (poll_send always_ready halves cut_short
      ≡ done (ready (ok tt), sender))
    × (sender.sending.wire
        ≡ (from_alice, 1 ∷ 2 ∷ 3 ∷ []) ∷ (from_alice, 1 ∷ 2 ∷ 3 ∷ []) ∷ (from_alice, 4 ∷ []) ∷ [])
unfolding poll_send try_send send_segments send_datagram send_after chunks
poll_send_again = (_, refl, refl)

poll_send-Sent_example :
    (end : Poll (Result (Unit {0}) ErrorKind) × PacketSender) × (poll_send always_ready small
        crowded
      ≡ done end)
    × Sent small always_ready crowded.sending end
poll_send-Sent_example = poll_send-Sent always_ready small crowded (unset refl)

halves_sized : halves.segment_size ≢ some 0
halves_sized e = cc e

poll_send-Attempted_example :
    (parts : List (List ℕ)) × (end : Poll (Result (Unit {0}) ErrorKind) × PacketSender) × IsParts
      halves parts
    × (poll_send always_ready halves cut_short ≡ done end)
    × Attempted from_alice parts always_ready cut_short.sending end
poll_send-Attempted_example = poll_send-Attempted always_ready halves cut_short halves_sized

-- A call that finds nothing, and then one that finds the socket readable.
abbrev two_calls : List Call
two_calls =
    record { bufs = bufs; meta = meta; readiness = pending ∷ [] }
    ∷ record { bufs = bufs; meta = meta; readiness = readiness }
    ∷ []

two_calls-AreCalls : All (IsCall 40) two_calls
two_calls-AreCalls =
    let is : (readiness : Readiness)
        → IsCall 40 (record { bufs = bufs; meta = meta; readiness = readiness }) =
      λ r. record { same = omega arith; some_buf = omega arith; described = omega arith } in
    (is (pending ∷ []), (is readiness, tt))

poll_calls-Received_example :
    (s : Session) × (poll_calls sum_cipher guarded queue two_calls ≡ done s)
    × Received sum_cipher 40 guarded queue two_calls s
poll_calls-Received_example =
    poll_calls-Received sum_cipher 40 guarded queue two_calls (two_calls-AreCalls) (omega arith)
