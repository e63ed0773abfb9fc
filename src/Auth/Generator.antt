-- ===== src/Auth/Generator.antt =====
-- src/auth.rs: `AuthCidGenerator` and `initial_dst_cid_provider`. A connection ID is the bytes that
-- the code hands to Quinn's `ConnectionId::new`; the nonce's random bytes are an argument.
pub mod RoundTrip
use pktauth.Base.{List, ℕ, Option, none, Run}
use pktauth.Net.{Ipv4Addr, IpAddr, SocketAddr, v4, v6, unspecified}
use pktauth.Auth.Direction.{Direction, Peers, client_to_server, token_len}
use pktauth.Auth.Cipher.{Aes128}
use pktauth.Auth.Tag.{mint, mint_between}

pub record AuthCidGenerator : Type 0 where
  pub direction : Direction
  pub local_ip : Ipv4Addr

abbrev pub new : Direction → Ipv4Addr → AuthCidGenerator
new direction local_ip = record { direction = direction; local_ip = local_ip }

-- In seconds; none is no expiry.
abbrev pub cid_lifetime : AuthCidGenerator → Option ℕ
cid_lifetime generator = none

abbrev pub cid_len : AuthCidGenerator → ℕ
cid_len generator = token_len

module _ (aes : Aes128) where
  unfoldable pub generate_cid : AuthCidGenerator → List ℕ → Run (List ℕ)
  generate_cid generator random =
      mint_between aes generator.direction unspecified generator.local_ip random

  mint_for : AuthCidGenerator → IpAddr → List ℕ → Run (List ℕ)
  mint_for generator (v4 peer) random =
      mint_between aes generator.direction peer generator.local_ip random
  mint_for generator (v6 octets) random =
      mint_between aes generator.direction unspecified generator.local_ip random

  unfoldable pub generate_cid_for :
      AuthCidGenerator → SocketAddr → Option IpAddr → List ℕ → Run (List ℕ)
  unfolding mint_for
  generate_cid_for generator remote local random = mint_for generator remote.ip random

  unfoldable pub initial_dst_cid_provider : Peers → List ℕ → Run (List ℕ)
  initial_dst_cid_provider peers random = mint aes client_to_server peers random
