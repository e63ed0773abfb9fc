-- ===== src/Programs/Flood/Tests.antt =====
-- A probe, and its replay from another source behind an ICMP error, at a server's socket.
use pktauth.Base.{List, [], ◌∷◌, ◌≡◌, refl, some, true, done, ok, replicate, arith}
use pktauth.Base.Bytes.{length-to_be_bytes, to_be_bytes-AreBytes}
use pktauth.Net.{v4, v6}
use pktauth.Auth.Direction.{client_to_server}
use pktauth.Auth.StandIn.{sum_cipher, alice, bob}
use pktauth.Auth.StandIn
use pktauth.Auth.Authenticator.{Authenticator}
use pktauth.Auth.Authenticator
use pktauth.Socket.Counters.{PacketSocket, bound, ready, connection_refused}
use pktauth.Socket.Recv.{Arrival, datagram, failed}
use pktauth.Socket.Recv.Calls.{Call, IsCall, Session, poll_calls}
use pktauth.Blaster.Tests.{big_endian, takes_all, no_stats, batch_sent, tenth}
use pktauth.Programs.Flood.{TurnsAway, blast-TurnsAway}

abbrev checking : Authenticator
checking = Authenticator.new client_to_server StandIn.server

abbrev guarded : PacketSocket
guarded = bound (some checking)

abbrev replayed : List Arrival
replayed =
    datagram tenth.0 (record { ip = v4 alice; port = 4433 })
    ∷ failed connection_refused
    ∷ datagram tenth.0 (record { ip = v4 bob; port = 9 })
    ∷ []

abbrev call : Call
call = record {
  bufs = replicate 1500 0 ∷ [];
  meta = record { addr = record { ip = v6 []; port = 0 }; len = 0; stride = 0 } ∷ [];
  readiness = ready (ok tt) ∷ [];
}

abbrev calls : List Call
calls = call ∷ call ∷ call ∷ []

call-IsCall : IsCall 1500 call
call-IsCall = record { same = (refl, tt); some_buf = omega arith; described = omega arith }

blast-TurnsAway_example :
    (s : Session) × (poll_calls sum_cipher guarded replayed calls ≡ done s)
    × TurnsAway sum_cipher checking 1500 guarded replayed calls s
blast-TurnsAway_example =
    blast-TurnsAway big_endian (length-to_be_bytes 8) (to_be_bytes-AreBytes 8) takes_all 1200 7
      (true ∷ []) no_stats batch_sent.0 sum_cipher checking 1500 guarded replayed calls batch_sent.1
      ((10, tenth.1), (tt, ((10, tenth.1), tt))) refl (omega arith) (omega arith)
      (call-IsCall, (call-IsCall, (call-IsCall, tt)))
