-- ===== src/Programs/Exchange/Tests.antt =====
-- A packet in each direction, amid an error and a packet of a stranger.
use pktauth.Base.{
  ℕ, List, [], ◌∷◌, ◌≡◌, refl, none, done, ok, err, false, Result, All, replicate, arith,
}
use pktauth.Net.{v4, v6, SocketAddr}
use pktauth.Auth.StandIn.{sum_cipher, alice, bob, peers, nonce, token, with_token}
use pktauth.Auth.StandIn
use pktauth.Socket.Counters.{ErrorKind, PacketSocket, Poll, ready, connection_refused, would_block}
use pktauth.Socket.Recv.{Arrival, datagram, failed}
use pktauth.Socket.Recv.Calls.{Call, IsCall, Session, poll_calls}
use pktauth.Socket.Recv.Calls.Arrives.{IsAmong}
use pktauth.Socket.Send.{
  Transmit, PacketSender, try_send, send_datagram, send_after, poll_send, count_sent, create_sender,
}
use pktauth.Socket.Send.PollSend.{unset}
use pktauth.Programs.Tests.{
  server, client, checking, server_args, client_args, serves, connects, served, connecting,
  provided, issued, replied, reply, with_reply, with_reply-Carries, with_token-Carries,
}
use pktauth.Programs.Exchange.{Crosses, initial-Arrives, later-Arrives, reply-Arrives}

abbrev at_alice : SocketAddr
at_alice = record { ip = v4 alice; port = 50000 }

abbrev at_server : SocketAddr
at_server = record { ip = v4 StandIn.server; port = 4433 }

abbrev transmitting : SocketAddr → List ℕ → Transmit
transmitting to contents = record { destination = to; contents = contents; segment_size = none }

-- The system has no room at first.
abbrev sender : PacketSocket → PacketSender
sender socket =
    create_sender (record { socket = socket; wire = []; answers = err would_block ∷ ok 40 ∷ [] })

abbrev always_ready : List (Poll (Result (Unit {0}) ErrorKind))
always_ready = ready (ok tt) ∷ ready (ok tt) ∷ []

-- What the sender is left with, and its answer.
abbrev gone : PacketSocket → SocketAddr → List ℕ → Poll (Result (Unit {0}) ErrorKind) × PacketSender
gone socket to contents = (
  ready (ok tt),
  record {
    sending = record { socket = count_sent 40 socket; wire = (to, contents) ∷ []; answers = [] };
    writable = false;
  },
)

sends :
    (socket : PacketSocket) (to : SocketAddr) (contents : List ℕ)
    → poll_send always_ready (transmitting to contents) (sender socket)
      ≡ done (gone socket to contents)
unfolding poll_send try_send send_datagram send_after
sends socket to contents = refl

-- An error and a stranger's packet come first.
abbrev arrivals : List ℕ → SocketAddr → List Arrival
arrivals contents from =
    failed connection_refused
    ∷ datagram contents (record { ip = v4 bob; port = 9 })
    ∷ datagram contents from
    ∷ []

abbrev call : Call
call = record {
  bufs = replicate 64 0 ∷ [];
  meta = record { addr = record { ip = v6 []; port = 0 }; len = 0; stride = 0 } ∷ [];
  readiness = ready (ok tt) ∷ [];
}

abbrev calls : List Call
calls = call ∷ call ∷ call ∷ []

calls-AreCalls : All (IsCall 64) calls
calls-AreCalls =
    let is : IsCall 64 call = record {
      same = (refl, tt);
      some_buf = omega arith;
      described = omega arith;
    } in
    (is, (is, (is, tt)))

delivers :
    (socket : PacketSocket) (to from : SocketAddr) (contents : List ℕ)
    → Crosses
        (sender socket).sending
        (gone socket to contents).1.sending
        from
        (arrivals contents from)
        2
delivers socket to from contents = record {
  to = to;
  payload = contents;
  sent = refl;
  arrived = refl;
}

initial-Arrives_example :
    (s : Session) × (poll_calls sum_cipher server.socket (arrivals with_token at_alice) calls
      ≡ done s)
    × IsAmong with_token at_alice s.packets
initial-Arrives_example =
    initial-Arrives sum_cipher 64 calls (arrivals with_token at_alice) calls-AreCalls (omega arith)
      (omega arith) server_args client_args server client checking peers nonce token always_ready
      (transmitting at_server with_token) (sender client.socket)
      (gone client.socket at_server with_token) 50000 2 serves connects refl served connecting refl
      provided (unset refl) with_token-Carries (omega arith)
      (sends client.socket at_server with_token)
      (delivers client.socket at_server at_alice with_token)

later-Arrives_example :
    (s : Session) × (poll_calls sum_cipher server.socket (arrivals with_token at_alice) calls
      ≡ done s)
    × IsAmong with_token at_alice s.packets
later-Arrives_example =
    later-Arrives sum_cipher 64 calls (arrivals with_token at_alice) calls-AreCalls (omega arith)
      (omega arith) server_args server checking alice 50000 none nonce token always_ready
      (transmitting at_server with_token) (sender client.socket)
      (gone client.socket at_server with_token) 2 serves served refl issued (unset refl)
      with_token-Carries (omega arith) (sends client.socket at_server with_token)
      (delivers client.socket at_server at_alice with_token)

reply-Arrives_example :
    (s : Session) × (poll_calls sum_cipher client.socket (arrivals with_reply at_server) calls
      ≡ done s)
    × IsAmong with_reply at_server s.packets
reply-Arrives_example =
    reply-Arrives sum_cipher 64 calls (arrivals with_reply at_server) calls-AreCalls (omega arith)
      (omega arith) client_args client StandIn.server 4433 none nonce reply always_ready
      (transmitting at_alice with_reply) (sender server.socket)
      (gone server.socket at_alice with_reply) 2 connects refl replied (unset refl)
      with_reply-Carries (omega arith) (sends server.socket at_alice with_reply)
      (delivers server.socket at_alice at_server with_reply)
