-- ===== src/Programs/Setup.antt =====
-- src/bin/server.rs, src/bin/client.rs and src/lib.rs: what the two programs build from their
-- arguments. Of an endpoint it is the socket's state and what Quinn is given to issue connection
-- IDs with; TLS, the sockets' ports and printing are left out, and so are the failures of
-- third-party calls. An error is the case of the message and what it is formatted with.
use pktauth.Base.{
  ℕ, List, Bool, true, false, Option, none, some, Result, ok, err, ltb, if◌then◌else◌,
}
use pktauth.Net.{Ipv4Addr, IpAddr, v4, v6, SocketAddr, is_unspecified}
use pktauth.Auth.Direction.{Peers, client_to_server, server_to_client}
use pktauth.Auth.Authenticator
use pktauth.Auth.Authenticator.{Authenticator}
use pktauth.Auth.Generator.{AuthCidGenerator}
use pktauth.Auth.Generator
use pktauth.Socket.Counters.{PacketSocket, bound}
use pktauth.Ping.Streams.{max_ping_bytes}

-- A Quinn endpoint: the socket, the generator of the IDs that it advertises, and the pair of
-- addresses that the destination of its Initial is minted for, if it connects.
pub record Endpoint : Type 0 where
  pub socket : PacketSocket
  pub generator : AuthCidGenerator
  pub initial_dst : Option Peers

unfoldable pub server_endpoint : PacketSocket → Ipv4Addr → Endpoint
server_endpoint socket local_ip = record {
  socket = socket;
  generator = Generator.new client_to_server local_ip;
  initial_dst = none;
}

unfoldable pub client_endpoint : PacketSocket → Peers → Endpoint
client_endpoint socket peers = record {
  socket = socket;
  generator = Generator.new server_to_client peers.client;
  initial_dst = some peers;
}

-- Paths and names are byte lists.
pub record ServerArgs : Type 0 where
  pub listen : SocketAddr
  pub cert_out : List ℕ
  pub server_name : List ℕ
  pub no_dcid_validation : Bool

pub record ClientArgs : Type 0 where
  pub server : SocketAddr
  pub cert : List ℕ
  pub server_name : List ℕ
  pub count : ℕ
  pub size : ℕ
  pub local_ip : Ipv4Addr

pub data SetupError : Type 0 where
  not_ipv4 : IpAddr → SetupError
  wildcard : SetupError
  too_large : ℕ → SetupError

abbrev pub authenticator_for : Ipv4Addr → Bool → Option Authenticator
authenticator_for server_ip false = some (Authenticator.new client_to_server server_ip)
authenticator_for server_ip true = none

unfoldable pub listen_on : Ipv4Addr → Bool → Result Endpoint SetupError
listen_on server_ip no_dcid_validation =
    if is_unspecified server_ip
    then err wildcard
    else ok (server_endpoint (bound (authenticator_for server_ip no_dcid_validation)) server_ip)

unfoldable pub server_setup : ServerArgs → Result Endpoint SetupError
unfolding listen_on
server_setup args = elim (args.listen.ip) [
  | v6 octets ↦ err (not_ipv4 (v6 octets))
  | v4 server_ip ↦ listen_on server_ip args.no_dcid_validation
]

unfoldable pub client_setup : ClientArgs → Result Endpoint SetupError
client_setup args =
    if ltb max_ping_bytes args.size then err (too_large args.size) else elim (args.server.ip) [
      | v6 octets ↦ err (not_ipv4 (v6 octets))
      | v4 server_ip ↦
          let peers : Peers = record { client = args.local_ip; server = server_ip } in
          let authenticator = Authenticator.new server_to_client args.local_ip in
          ok (client_endpoint (bound (some authenticator)) peers)
    ]
