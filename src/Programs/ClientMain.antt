-- ===== src/Programs/ClientMain.antt =====
-- src/bin/client.rs: `main`, by what it does. The answers of the file system, of the operating
-- system, of Quinn and of each ping are an argument, and so is what the socket has counted when the
-- program ends. Sleeping and the text of the printed lines are left out. The loop of pings runs on
-- fuel; `none` is a loop that the fuel did not see end.
pub mod Phases
pub mod Kept
pub mod Tests
use pktauth.Base.{ℕ, List, [], ◌∷◌, Option, none, some, ltb, Run, Result, ok, err}
use pktauth.Base.Actions.{Ran, pure, raise, act, ◌>>=◌, ◌>>◌, raise_if, try_with, run}
use pktauth.Net.{Ipv4Addr, IpAddr, v4, v6, SocketAddr}
use pktauth.Auth.Direction.{Peers, server_to_client}
use pktauth.Auth.Authenticator
use pktauth.Auth.Authenticator.{Authenticator}
use pktauth.Socket.Counters.{PacketCounts, ErrorKind, bound}
use pktauth.Ping.Streams.{ConnectionError, Error, max_ping_bytes}
use pktauth.Tls.{Library, Process, ConfigError, ClientConfig, client_config}
use pktauth.Programs.Setup.{Endpoint, ClientArgs, SetupError, not_ipv4, too_large, client_endpoint}
use pktauth.Programs.Pinging.{Pinging, started, ping_loop}
use pktauth.Programs.Summary.{Summary, print_summary}

-- What is answered to the program; the error of `connect` is a number.
pub record ClientWorld : Type 0 where
  pub read : List ℕ → Result (List ℕ) ErrorKind
  pub bind : SocketAddr → Result (Unit {0}) ErrorKind
  pub new_endpoint : Result (Unit {0}) ErrorKind
  pub connect : SocketAddr → List ℕ → Result (Unit {0}) ℕ
  pub handshake : Result SocketAddr ConnectionError
  pub ping : ℕ → List ℕ → Result ℕ Error
  pub counts : PacketCounts

pub data ClientError : Type 0 where
  setup : SetupError → ClientError
  config : ConfigError → ClientError
  io : ErrorKind → ClientError
  connecting : ℕ → ClientError
  connection : ConnectionError → ClientError

-- What the program does; the loop of pings is one act, by the state that it ends in.
pub data ClientAct : Type 0 where
  took_socket : SocketAddr → Option Authenticator → ClientAct
  mounted : Endpoint → ClientConfig → ClientAct
  connected : SocketAddr → ClientAct
  pinged : Option Pinging → ClientAct
  closed waited : ClientAct
  printed : Summary → ClientAct

abbrev pub Doing : Type 0 → Type 0
Doing A = Ran ClientAct ClientError A

abbrev pub only_v4 : IpAddr → Doing Ipv4Addr
only_v4 (v4 ip) = pure ip
only_v4 (v6 octets) = raise (setup (not_ipv4 (v6 octets)))

module _ (world : ClientWorld) where
  abbrev pub close_and_print : Option Pinging → Doing (Unit {0})
  close_and_print none = pure tt
  close_and_print (some s) = do
    act closed
    act waited
    summary ← run (print_summary s.seq s.rtts s.lost world.counts)
    act (printed summary)

  -- After the endpoint is mounted.
  unfoldable pub connect_and_ping : ClientArgs → ℕ → Doing (Unit {0})
  connect_and_ping args fuel = do
    try_with connecting (world.connect args.server args.server_name)
    remote ← try_with connection world.handshake
    act (connected remote)
    ended ← run (ping_loop world.ping args.count args.size fuel started)
    act (pinged ended)
    close_and_print ended

  unfoldable pub client_main : Library → Process → ClientArgs → ℕ → Doing (Unit {0})
  client_main lib process args fuel = do
    raise_if (ltb max_ping_bytes args.size) (setup (too_large args.size))
    server_ip ← only_v4 args.server.ip
    let peers : Peers = record { client = args.local_ip; server = server_ip }
    cert ← try_with io (world.read args.cert)
    let authenticator = some (Authenticator.new server_to_client args.local_ip)
    let local : SocketAddr = record { ip = v4 args.local_ip; port = 0 }
    try_with io (world.bind local)
    act (took_socket local authenticator)
    made ← run (client_config lib (cert ∷ []) process).0
    client_configuration ← try_with config made
    try_with io world.new_endpoint
    act (mounted (client_endpoint (bound authenticator) peers) client_configuration)
    connect_and_ping args fuel
