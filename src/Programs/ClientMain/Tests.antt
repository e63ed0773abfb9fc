-- ===== src/Programs/ClientMain/Tests.antt =====
-- A client of which every third ping is lost, and one that has no certificate.
use pktauth.Base.{[], ◌∷◌, ◌≡◌, refl, ok, err, arith}
use pktauth.Base.Actions.{failed}
use pktauth.Tls.StandIn.{accepting, accepting-Documented, fresh}
use pktauth.Socket.Counters.{other}
use pktauth.Programs.Tests.{client_args, no_packets, every_third_lost, every_third_lost-IsBrief}
use pktauth.Programs.ClientMain.{ClientWorld, client_main, io}
use pktauth.Programs.ClientMain.Phases.{Runs, begun}
use pktauth.Programs.ClientMain.Kept.{IsFinite, client_main-Runs}

abbrev pub answering : ClientWorld
answering = record {
  read = λ path. ok (48 ∷ 130 ∷ []);
  bind = λ address. ok tt;
  new_endpoint = ok tt;
  connect = λ address name. ok tt;
  handshake = ok client_args.server;
  ping = every_third_lost;
  counts = no_packets;
}

-- Without the certificate nothing is done.
unread :
    client_main (record answering { read = λ path. err other }) accepting fresh client_args 6
    ≡ record { log = []; exit = failed (io other) }
unfolding client_main
unread = refl

answering-IsFinite : IsFinite answering client_args
answering-IsFinite = record {
  some_ping = omega arith;
  few = omega arith;
  brief = every_third_lost-IsBrief;
}

client_main-Runs_example :
    Runs accepting fresh answering client_args begun
      (client_main answering accepting fresh client_args 6).log
      (client_main answering accepting fresh client_args 6).exit
client_main-Runs_example =
    client_main-Runs accepting fresh answering client_args answering-IsFinite accepting-Documented
