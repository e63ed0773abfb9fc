-- ===== src/Auth/Generator/RoundTrip.antt =====
-- The connection IDs that one end issues are the ones that it admits.
use pktauth.Base.{List, ℕ, ◌≡◌, ◌∙◌, sym, Option, done, ok, length, arith}
use pktauth.Base.Bytes.{AreBytes}
use pktauth.Net.{Ipv4Addr, IpAddr, SocketAddr, v4, v6, unspecified}
use pktauth.Auth.Direction.{Direction, Peers, client_to_server, path, key}
use pktauth.Auth.Cipher.{Aes128}
use pktauth.Auth.Tag.{tag, assemble, mint, mint_between}
use pktauth.Auth.Tag.Layout.{token_of, assemble-token_of, length-token_of, token_of-AreBytes}
use pktauth.Auth.Verify.Binding.{ByTag, verify-other_path}
use pktauth.Auth.Cid.Format.{Carries, destination_cid_iff}
use pktauth.Auth.Authenticator.{check}
use pktauth.Auth.Authenticator
use pktauth.Auth.Authenticator.Admits.{admits, check-verify}
use pktauth.Auth.Generator.{generate_cid, generate_cid_for, cid_len, initial_dst_cid_provider}
use pktauth.Auth.Generator

module _ (aes : Aes128) where
  -- An end that issues connection IDs with its direction and address admits every datagram that
  -- carries one of them and comes from the IPv4 peer for which it was issued.
  pub check-generate_cid_for :
      (d : Direction) (local_ip peer : Ipv4Addr) (port : ℕ) (hint : Option IpAddr)
      (random cid datagram : List ℕ)
      → length random ≡ 8
      → generate_cid_for aes
          (Generator.new d local_ip)
          (record { ip = v4 peer; port = port })
          hint
          random
        ≡ done cid
      → AreBytes datagram
      → Carries datagram cid
      → check aes (Authenticator.new d local_ip) datagram (v4 peer) ≡ done (ok tt)
  unfolding generate_cid_for mint_between
  check-generate_cid_for d local_ip peer port hint random cid datagram size e bytes carried =
      admits aes (Authenticator.new d local_ip) datagram cid peer bytes carried (random, size, e)

  -- The destination of the client's Initial: the server admits it from the client's address.
  pub check-initial_dst_cid_provider :
      (peers : Peers) (random cid datagram : List ℕ)
      → length random ≡ 8
      → initial_dst_cid_provider aes peers random ≡ done cid
      → AreBytes datagram
      → Carries datagram cid
      → check aes (Authenticator.new client_to_server peers.server) datagram (v4 peers.client)
        ≡ done (ok tt)
  unfolding initial_dst_cid_provider mint mint_between path
  check-initial_dst_cid_provider peers random cid datagram size e bytes carried =
      admits aes (Authenticator.new client_to_server peers.server) datagram cid peers.client bytes
        carried (random, size, e)

  -- The address that a connection ID is bound to: the peer's if it is an IPv4 address.
  abbrev pub bound_source : IpAddr → Ipv4Addr
  bound_source (v4 peer) = peer
  bound_source (v6 octets) = unspecified

  generate_cid_for-assemble :
      (d : Direction) (local_ip : Ipv4Addr) (remote : SocketAddr) (hint : Option IpAddr)
      (random : List ℕ)
      → generate_cid_for aes (Generator.new d local_ip) remote hint random
        ≡ assemble aes d random (bound_source remote.ip) local_ip
  unfolding generate_cid_for mint_between
  generate_cid_for-assemble d local_ip remote hint random = ground arith

  -- Issuing an ID never panics, and the ID has the advertised length and is bytes.
  pub generate_cid_for_total :
      (d : Direction) (local_ip : Ipv4Addr) (remote : SocketAddr) (hint : Option IpAddr)
      (random : List ℕ)
      → length random ≡ 8
      → AreBytes random
      → (cid : List ℕ) × (generate_cid_for aes (Generator.new d local_ip) remote hint random
          ≡ done cid)
        × (length cid ≡ cid_len (Generator.new d local_ip))
        × AreBytes cid
  generate_cid_for_total d local_ip remote hint random size bytes = (
    token_of aes d random (bound_source remote.ip) local_ip,
    generate_cid_for-assemble d local_ip remote hint random
        ∙ assemble-token_of aes d random (bound_source remote.ip) local_ip size,
    length-token_of aes d random (bound_source remote.ip) local_ip size,
    token_of-AreBytes aes d random (bound_source remote.ip) local_ip bytes,
  )

  check-elsewhere :
      (d : Direction) (local_ip bound src : Ipv4Addr) (random cid datagram : List ℕ)
      → length random ≡ 8
      → assemble aes d random bound local_ip ≡ done cid
      → AreBytes datagram
      → Carries datagram cid
      → ByTag
          (tag aes (key d) random bound local_ip)
          (tag aes (key d) random src local_ip)
          (check aes (Authenticator.new d local_ip) datagram (v4 src))
  check-elsewhere d local_ip bound src random cid datagram size e bytes carried =
      rw
        (check-verify aes (Authenticator.new d local_ip) datagram src
          ((destination_cid_iff datagram cid bytes).1 carried))
        (verify-other_path aes d random cid bound local_ip src local_ip size e)

  -- A datagram with an issued ID that comes from another IPv4 source: it is admitted where the ID's
  -- tag, which covers the peer (0.0.0.0 for an IPv6 peer), is also the tag of that source, and is
  -- refused for its tag where it is not.
  check-generate_cid_for_elsewhere :
      (d : Direction) (local_ip : Ipv4Addr) (remote : SocketAddr) (hint : Option IpAddr)
      (src : Ipv4Addr) (random cid datagram : List ℕ)
      → length random ≡ 8
      → generate_cid_for aes (Generator.new d local_ip) remote hint random ≡ done cid
      → AreBytes datagram
      → Carries datagram cid
      → ByTag
          (tag aes (key d) random (bound_source remote.ip) local_ip)
          (tag aes (key d) random src local_ip)
          (check aes (Authenticator.new d local_ip) datagram (v4 src))
  check-generate_cid_for_elsewhere d local_ip remote hint src random cid datagram size e =
      check-elsewhere d local_ip (bound_source remote.ip) src random cid datagram size
        (sym (generate_cid_for-assemble d local_ip remote hint random) ∙ e)

  -- An ID minted without a peer is admitted from 0.0.0.0, and from any source where both have one
  -- tag, and it is refused for its tag where they have not.
  pub check-generate_cid :
      (d : Direction) (local_ip src : Ipv4Addr) (random cid datagram : List ℕ)
      → length random ≡ 8
      → generate_cid aes (Generator.new d local_ip) random ≡ done cid
      → AreBytes datagram
      → Carries datagram cid
      → (check aes (Authenticator.new d local_ip) datagram (v4 unspecified) ≡ done (ok tt))
        × ByTag
            (tag aes (key d) random unspecified local_ip)
            (tag aes (key d) random src local_ip)
            (check aes (Authenticator.new d local_ip) datagram (v4 src))
  unfolding generate_cid mint_between
  check-generate_cid d local_ip src random cid datagram size e bytes carried = (
    admits aes (Authenticator.new d local_ip) datagram cid unspecified bytes carried
        (random, size, e),
    check-elsewhere d local_ip unspecified src random cid datagram size e bytes carried,
  )
