-- ===== src/Programs/Tests.antt =====
-- The programs at concrete arguments.
use pktauth.Base.{
  ◌++◌, ℕ, List, [], ◌∷◌, ◌≡◌, refl, Result, ok, err, done, some, none, true, false, ◌+◌, arith,
}
use pktauth.Net.{v4, unspecified}
use pktauth.Auth.Direction.{client_to_server, server_to_client, path}
use pktauth.Auth.StandIn.{sum_cipher, alice, peers, nonce, token, with_token}
use pktauth.Auth.StandIn
use pktauth.Auth.Tag.{mint, mint_between, assemble, tag}
use pktauth.Auth.Cid.Format.{Carries, short}
use pktauth.Auth.Authenticator.{Authenticator, check}
use pktauth.Auth.Authenticator
use pktauth.Auth.Generator.{generate_cid_for, initial_dst_cid_provider}
use pktauth.Socket.Counters.{bound}
use pktauth.Ping.Streams.{Error, read}
use pktauth.Programs.Setup.{
  ServerArgs, ClientArgs, Endpoint, server_setup, client_setup, server_endpoint, client_endpoint,
  listen_on, wildcard,
}
use pktauth.Base.{List, ◌*◌, ◌%◌, ◌==◌, if◌then◌else◌, Bool-cases, inl, inr}
use pktauth.Socket.Counters.{PacketCounts}
use pktauth.Programs.Summary.Pinged.{IsBrief}

abbrev pub server_args : ServerArgs
server_args = record {
  listen = record { ip = v4 StandIn.server; port = 4433 };
  cert_out = [];
  server_name = [];
  no_dcid_validation = false;
}

abbrev pub client_args : ClientArgs
client_args = record {
  server = record { ip = v4 StandIn.server; port = 4433 };
  cert = [];
  server_name = [];
  count = 5;
  size = 64;
  local_ip = alice;
}

abbrev pub checking : Authenticator
checking = Authenticator.new client_to_server StandIn.server

abbrev pub server : Endpoint
server = server_endpoint (bound (some checking)) StandIn.server

abbrev pub client : Endpoint
client = client_endpoint (bound (some (Authenticator.new server_to_client alice))) peers

pub serves : server_setup server_args ≡ ok server
unfolding server_setup listen_on
serves = refl

pub connects : client_setup client_args ≡ ok client
unfolding client_setup
connects = refl

refuses_wildcard :
    server_setup (record {
      listen = record { ip = v4 unspecified; port = 1 };
      cert_out = [];
      server_name = [];
      no_dcid_validation = true;
    })
    ≡ err wildcard
unfolding server_setup listen_on
refuses_wildcard = refl

pub with_token-Carries : Carries with_token token
with_token-Carries = short 0x40 (0xaa ∷ 0xaa ∷ []) (omega arith) refl refl

pub provided : initial_dst_cid_provider sum_cipher peers nonce ≡ done token
unfolding initial_dst_cid_provider mint mint_between assemble path tag
provided = refl

pub issued :
    generate_cid_for sum_cipher server.generator (record { ip = v4 alice; port = 50000 }) none nonce
    ≡ done token
unfolding generate_cid_for mint_between assemble tag server_endpoint
issued = refl

pub served : server.socket.authenticator ≡ some checking
unfolding server_endpoint
served = refl

pub connecting : client.initial_dst ≡ some peers
unfolding client_endpoint
connecting = refl

abbrev pub reply : List ℕ
reply =
    0 ∷ 2 ∷ 1 ∷ 2 ∷ 3 ∷ 4 ∷ 5 ∷ 6 ∷ 7 ∷ 8 ∷ 105 ∷ 78 ∷ 61 ∷ 46 ∷ 37 ∷ 10 ∷ 249 ∷ 233 ∷ 216 ∷ 200
    ∷ []

pub replied :
    generate_cid_for sum_cipher client.generator
      (record { ip = v4 StandIn.server; port = 4433 })
      none
      nonce
    ≡ done reply
unfolding generate_cid_for mint_between assemble tag client_endpoint
replied = refl

abbrev pub with_reply : List ℕ
with_reply = 0x40 ∷ (reply ++ (1 ∷ []))

pub with_reply-Carries : Carries with_reply reply
with_reply-Carries = short 0x40 (1 ∷ []) (omega arith) refl refl

-- Every third ping is lost, and the others take a millisecond and two.
abbrev pub every_third_lost : ℕ → List ℕ → Result ℕ Error
every_third_lost seq payload = if seq % 3 == 2 then err read else ok ((seq % 3 + 1) * 1000000)

pub every_third_lost-IsBrief : (seq : ℕ) (payload : List ℕ) → IsBrief (every_third_lost seq payload)
every_third_lost-IsBrief seq payload = elim (Bool-cases (seq % 3 == 2)) [
  | inl lost ↦ rw lost tt
  | inr echoed ↦ rw echoed (omega arith)
]

abbrev pub no_packets : PacketCounts
no_packets = record { sent = 0; sent_bytes = 0; received = 0; received_bytes = 0; rejected = 0 }
