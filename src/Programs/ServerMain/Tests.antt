-- ===== src/Programs/ServerMain/Tests.antt =====
-- A server that a signal ends, and one whose socket is taken.
use pktauth.Base.{[], ◌∷◌, ◌≡◌, refl, ok, err}
use pktauth.Base.Actions.{failed}
use pktauth.Tls.{self_signed_server_config, server_with, transport_config}
use pktauth.Tls.StandIn.{accepting, accepting-Documented, fresh}
use pktauth.Socket.Counters.{other}
use pktauth.Programs.Tests.{server_args, no_packets}
use pktauth.Programs.ServerMain.{ServerWorld, interrupted, server_main, listen_and_serve, io, wrote}
use pktauth.Programs.ServerMain.Phases.{Runs, begun}
use pktauth.Programs.ServerMain.Kept.{server_main-Runs}

abbrev until_signal : ServerWorld
until_signal = record {
  write = λ path cert. ok tt;
  bind = λ address. ok tt;
  local_addr = ok server_args.listen;
  new_endpoint = ok tt;
  ended = interrupted (ok tt);
  counts = no_packets;
}

-- The certificate is written before the socket turns out to be taken.
taken :
    (server_main (record until_signal { bind = λ address. err other }) accepting fresh server_args)
    ≡ record { log = wrote [] (48 ∷ 130 ∷ []) ∷ []; exit = failed (io other) }
unfolding server_main self_signed_server_config server_with listen_and_serve transport_config
taken = refl

server_main-Runs_example :
    Runs accepting fresh until_signal server_args begun
      (server_main until_signal accepting fresh server_args).log
      (server_main until_signal accepting fresh server_args).exit
server_main-Runs_example =
    server_main-Runs accepting fresh until_signal server_args accepting-Documented
