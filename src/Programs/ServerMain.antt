-- ===== src/Programs/ServerMain.antt =====
-- src/bin/server.rs: `main`, by what it does. The answers of the file system, of the operating
-- system and of Quinn are an argument, and so is what the socket has counted when the program ends.
-- The text of the lines that it prints is left out.
pub mod Phases
pub mod Built
pub mod Kept
mod Tests
use pktauth.Base.{ℕ, List, [], ◌∷◌, Bool, Option, Run, Result, ok, err}
use pktauth.Base.Actions.{Ran, Exit, pure, raise, act, ◌>>=◌, ◌>>◌, raise_if, try_with, run}
use pktauth.Net.{Ipv4Addr, IpAddr, v4, v6, SocketAddr, is_unspecified}
use pktauth.Auth.Authenticator.{Authenticator}
use pktauth.Socket.Counters.{PacketCounts, ErrorKind, bound}
use pktauth.Tls.{
  Library, Process, ConfigError, ServerConfig, ServerCredentials, self_signed_server_config,
}
use pktauth.Programs.Setup.{
  Endpoint, ServerArgs, SetupError, not_ipv4, wildcard, authenticator_for, server_endpoint,
}

-- How the `select!` ends: `run_echo_server` returned, or a signal came, or waiting for it failed.
pub data Ended : Type 0 where
  out_of_connections : Ended
  interrupted : Result (Unit {0}) ErrorKind → Ended

-- What is answered to the program.
pub record ServerWorld : Type 0 where
  pub write : List ℕ → List ℕ → Result (Unit {0}) ErrorKind
  pub bind : SocketAddr → Result (Unit {0}) ErrorKind
  pub local_addr : Result SocketAddr ErrorKind
  pub new_endpoint : Result (Unit {0}) ErrorKind
  pub ended : Ended
  pub counts : PacketCounts

pub data MainError : Type 0 where
  setup : SetupError → MainError
  config : ConfigError → MainError
  io : ErrorKind → MainError

-- What the program does.
pub data ServerAct : Type 0 where
  wrote : (path cert : List ℕ) → ServerAct
  took_socket : SocketAddr → Option Authenticator → ServerAct
  listening : SocketAddr → ServerAct
  announced : (no_dcid_validation : Bool) → ServerAct
  mounted : Endpoint → ServerConfig → ServerAct
  shutting_down closed waited : ServerAct
  printed : PacketCounts → ServerAct

abbrev pub Doing : Type 0 → Type 0
Doing A = Ran ServerAct MainError A

-- `let IpAddr::V4(..) = .. else { return Err(..) }`.
abbrev pub only_v4 : IpAddr → Doing Ipv4Addr
only_v4 (v4 ip) = pure ip
only_v4 (v6 octets) = raise (setup (not_ipv4 (v6 octets)))

module _ (world : ServerWorld) where
  -- The `select!`.
  abbrev pub serve : Ended → Doing (Unit {0})
  serve out_of_connections = pure tt
  serve (interrupted (err kind)) = raise (io kind)
  serve (interrupted (ok _)) = act shutting_down

  -- After the endpoint is mounted.
  unfoldable pub serve_and_close : Doing (Unit {0})
  serve_and_close = do serve world.ended; act closed; act waited; act (printed world.counts)

  -- After the certificate is written.
  unfoldable pub listen_and_serve : ServerArgs → Ipv4Addr → ServerConfig → Doing (Unit {0})
  listen_and_serve args server_ip server_config = do
    let authenticator = authenticator_for server_ip args.no_dcid_validation
    try_with io (world.bind args.listen)
    act (took_socket args.listen authenticator)
    address ← try_with io world.local_addr
    act (listening address)
    act (announced args.no_dcid_validation)
    try_with io world.new_endpoint
    act (mounted (server_endpoint (bound authenticator) server_ip) server_config)
    serve_and_close

  unfoldable pub server_main : Library → Process → ServerArgs → Doing (Unit {0})
  server_main lib process args = do
    server_ip ← only_v4 args.listen.ip
    raise_if (is_unspecified server_ip) (setup wildcard)
    made ← run (self_signed_server_config lib (args.server_name ∷ []) process).0
    credentials ← try_with config made
    try_with io (world.write args.cert_out credentials.cert_der)
    act (wrote args.cert_out credentials.cert_der)
    listen_and_serve args server_ip credentials.config
