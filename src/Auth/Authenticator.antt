-- ===== src/Auth/Authenticator.antt =====
-- src/auth.rs: `Authenticator`, the check of one inbound datagram.
pub mod Admits
use pktauth.Base.{List, ℕ, Option, none, some, Run, done, ok, err}
use pktauth.Net.{Ipv4Addr, IpAddr, v4, v6}
use pktauth.Auth.Direction.{Direction, AuthError, not_quic, not_ipv4}
use pktauth.Auth.Cipher.{Aes128}
use pktauth.Auth.Verify.{Verdict, verify}
use pktauth.Auth.Cid.{destination_cid}

pub record Authenticator : Type 0 where
  pub inbound : Direction
  pub local_ip : Ipv4Addr

abbrev pub new : Direction → Ipv4Addr → Authenticator
new inbound local_ip = record { inbound = inbound; local_ip = local_ip }

module _ (aes : Aes128) where
  unfoldable pub check : Authenticator → List ℕ → IpAddr → Run Verdict
  check authenticator datagram (v6 octets) = done (err (not_ipv4 (v6 octets)))
  check authenticator datagram (v4 src) = elim (destination_cid datagram) [
    | none ↦ done (err not_quic)
    | some cid ↦ verify aes cid authenticator.inbound src authenticator.local_ip
  ]
