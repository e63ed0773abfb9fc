-- ===== src/Programs/Admission.antt =====
-- The two programs together: what one end issues, the other end's packets pass with.
use pktauth.Base.{ℕ, List, Option, some, ◌≡◌, refl, sym, ap, ◌∙◌, subst, done, ok, err}
use pktauth.Base.{length, Bool, true, false, ltb, Bool-cases, inl, inr}
use pktauth.Base.Bytes.{AreBytes}
use pktauth.Net.{Ipv4Addr, IpAddr, v4, v6, is_unspecified}
use pktauth.Auth.Direction.{Peers, client_to_server, server_to_client}
use pktauth.Auth.Cipher.{Aes128}
use pktauth.Auth.Cid.Format.{Carries}
use pktauth.Auth.Authenticator.{Authenticator, check}
use pktauth.Auth.Authenticator
use pktauth.Auth.Generator.{generate_cid_for, initial_dst_cid_provider}
use pktauth.Auth.Generator.RoundTrip.{check-generate_cid_for, check-initial_dst_cid_provider}
use pktauth.Programs.Setup.{
  Endpoint, ServerArgs, ClientArgs, server_setup, client_setup, listen_on, authenticator_for,
  not_ipv4, wildcard, too_large,
}
use pktauth.Socket.Counters.{bound}
use pktauth.Base.{◌⊎◌}
use pktauth.Programs.Setup.{server_endpoint, client_endpoint}

IpAddr-cases : (ip : IpAddr) → ((x : Ipv4Addr) × (ip ≡ v4 x)) ⊎ ((o : List ℕ) × (ip ≡ v6 o))
IpAddr-cases (v4 x) = inl (x, refl)
IpAddr-cases (v6 o) = inr (o, refl)

authenticator_for-some :
    (ip : Ipv4Addr) (off : Bool) {a : Authenticator}
    → authenticator_for ip off ≡ some a
    → a ≡ Authenticator.new client_to_server ip
authenticator_for-some ip false e = cc
authenticator_for-some ip true e = cc

-- A server that runs has a concrete IPv4 address, and it is built on that.
server_settings :
    (args : ServerArgs) {server : Endpoint}
    → server_setup args ≡ ok server
    → (ip : Ipv4Addr) × (args.listen.ip ≡ v4 ip)
      × (server ≡ server_endpoint (bound (authenticator_for ip args.no_dcid_validation)) ip)
unfolding server_setup listen_on
server_settings args {server} e = elim (IpAddr-cases args.listen.ip) [
  | inr other ↦
      let (o, v) = other in
      let refused : server_setup args ≡ err (not_ipv4 (v6 o)) = rw v refl in
      absurd (cc (e, refused))
  | inl found ↦
      let (ip, v) = found in
      let went : server_setup args ≡ listen_on ip args.no_dcid_validation = rw v refl in
      elim (Bool-cases (is_unspecified ip)) [
        | inl unset ↦
            let refused : listen_on ip args.no_dcid_validation ≡ err wildcard = rw unset refl in
            absurd (cc (e, went, refused))
        | inr set ↦
            let built : listen_on ip args.no_dcid_validation
                ≡ ok (server_endpoint (bound (authenticator_for ip args.no_dcid_validation)) ip) =
              rw set refl in
            (ip, v, cc (e, went, built))
      ]
]

-- A client that runs reaches an IPv4 server, and it is built on the two addresses.
client_settings :
    (args : ClientArgs) {client : Endpoint}
    → client_setup args ≡ ok client
    → (ip : Ipv4Addr) × (args.server.ip ≡ v4 ip)
      × (client
          ≡ client_endpoint
              (bound (some (Authenticator.new server_to_client args.local_ip)))
              (record { client = args.local_ip; server = ip }))
unfolding client_setup
client_settings args {client} e = elim (Bool-cases (ltb 65536 args.size)) [
  | inl large ↦
      let refused : client_setup args ≡ err (too_large args.size) = rw large refl in
      absurd (cc (e, refused))
  | inr fits ↦ elim (IpAddr-cases args.server.ip) [
    | inr other ↦
        let (o, v) = other in
        let refused : client_setup args ≡ err (not_ipv4 (v6 o)) = rw (fits, v) refl in
        absurd (cc (e, refused))
    | inl found ↦
        let (ip, v) = found in
        let built : client_setup args
            ≡ ok (
                client_endpoint (bound (some (Authenticator.new server_to_client args.local_ip)))
                  (record { client = args.local_ip; server = ip })) =
          rw (fits, v) refl in
        (ip, v, cc (e, built))
  ]
]

module _ (aes : Aes128) where
  -- A server and a client that were started with the server's own address: the server's
  -- authenticator, if it has one, admits every datagram from the client's address that carries the
  -- destination that the client minted for its Initial.
  pub initial_dst-Admitted :
      (server_args : ServerArgs) (client_args : ClientArgs) (server client : Endpoint)
      (a : Authenticator) (peers : Peers) (random cid datagram : List ℕ)
      → server_setup server_args ≡ ok server
      → client_setup client_args ≡ ok client
      → client_args.server.ip ≡ server_args.listen.ip
      → server.socket.authenticator ≡ some a
      → client.initial_dst ≡ some peers
      → length random ≡ 8
      → initial_dst_cid_provider aes peers random ≡ done cid
      → AreBytes datagram
      → Carries datagram cid
      → check aes a datagram (v4 client_args.local_ip) ≡ done (ok tt)
  unfolding server_endpoint client_endpoint
  initial_dst-Admitted server_args client_args server client a peers random cid datagram se ce same
        has dst size minted bytes carried =
      let (ip, listens, built) = server_settings server_args se in
      let (ip', reaches, made) = client_settings client_args ce in
      let held : authenticator_for ip server_args.no_dcid_validation ≡ some a =
        sym (ap (λ s. s.socket.authenticator) built) ∙ has in
      let is : a ≡ Authenticator.new client_to_server ip =
        authenticator_for-some ip server_args.no_dcid_validation held in
      let one : ip' ≡ ip = cc (listens, reaches, same) in
      let both : peers ≡ record { client = client_args.local_ip; server = ip' } =
        cc (sym (ap (λ c. c.initial_dst) made) ∙ dst) in
      let admitted =
        check-initial_dst_cid_provider aes (record { client = client_args.local_ip; server = ip' })
          random cid datagram size
          (subst (λ p. initial_dst_cid_provider aes p random ≡ done cid) both minted) bytes
          carried in
      rw (is, ← one) admitted

  -- The server's authenticator, if it has one, admits every datagram that carries a connection ID
  -- which the server issued for a client and comes from the address of that client.
  pub server-Admitted :
      (args : ServerArgs) (server : Endpoint) (a : Authenticator) (peer : Ipv4Addr) (port : ℕ)
      (hint : Option IpAddr) (random cid datagram : List ℕ)
      → server_setup args ≡ ok server
      → server.socket.authenticator ≡ some a
      → length random ≡ 8
      → generate_cid_for aes server.generator (record { ip = v4 peer; port = port }) hint random
        ≡ done cid
      → AreBytes datagram
      → Carries datagram cid
      → check aes a datagram (v4 peer) ≡ done (ok tt)
  unfolding server_endpoint
  server-Admitted args server a peer port hint random cid datagram e has size minted bytes carried =
      let (ip, listens, built) = server_settings args e in
      let held : authenticator_for ip args.no_dcid_validation ≡ some a =
        sym (ap (λ s. s.socket.authenticator) built) ∙ has in
      let is : a ≡ Authenticator.new client_to_server ip =
        authenticator_for-some ip args.no_dcid_validation held in
      let issued =
        subst
          (λ s.
            generate_cid_for aes s.generator (record { ip = v4 peer; port = port }) hint random
            ≡ done cid)
          built minted in
      rw is (
        check-generate_cid_for aes client_to_server ip peer port hint random cid datagram size
          issued bytes carried)

  -- A client always has an authenticator, and it admits every datagram from an IPv4 address that
  -- carries a connection ID which the client issued for that address.
  pub client-Admitted :
      (args : ClientArgs) (client : Endpoint) (peer : Ipv4Addr) (port : ℕ) (hint : Option IpAddr)
      (random cid datagram : List ℕ)
      → client_setup args ≡ ok client
      → length random ≡ 8
      → generate_cid_for aes client.generator (record { ip = v4 peer; port = port }) hint random
        ≡ done cid
      → AreBytes datagram
      → Carries datagram cid
      → (a : Authenticator) × (client.socket.authenticator ≡ some a)
        × (check aes a datagram (v4 peer) ≡ done (ok tt))
  unfolding client_endpoint
  client-Admitted args client peer port hint random cid datagram e size minted bytes carried =
      let (ip, reaches, made) = client_settings args e in
      let issued =
        subst
          (λ c.
            generate_cid_for aes c.generator (record { ip = v4 peer; port = port }) hint random
            ≡ done cid)
          made minted in
      (
        Authenticator.new server_to_client args.local_ip,
        ap (λ c. c.socket.authenticator) made,
        check-generate_cid_for aes server_to_client args.local_ip peer port hint random cid datagram
            size issued bytes carried,
      )
