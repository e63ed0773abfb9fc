-- ===== src/Programs/Exchange.antt =====
-- src/bin/server.rs and src/bin/client.rs over a network: what one end's `poll_send` puts on the wire
-- and the network delivers, among whatever else, is handed over by the other end's `poll_recv`.
mod Tests
use pktauth.Base.{ℕ, ◌≤◌, ◌<◌, List, [], ◌∷◌, ◌++◌, ◌≡◌, refl, sym, ap, ◌∙◌, subst, arith}
use pktauth.Base.{Option, none, some, Run, done, Result, ok, err, All, length, get_elem?}
use pktauth.Base.Slots.{lt-get_elem?, All-get_elem?}
use pktauth.Base.Bytes.{AreBytes}
use pktauth.Net.{Ipv4Addr, IpAddr, v4, SocketAddr}
use pktauth.Auth.Direction.{Peers}
use pktauth.Auth.Cipher.{Aes128}
use pktauth.Auth.Cid.Format.{Carries}
use pktauth.Auth.Authenticator.{Authenticator, check}
use pktauth.Auth.Generator.{generate_cid_for, initial_dst_cid_provider}
use pktauth.Socket.Counters.{PacketSocket, ErrorKind, Poll, ready, pending}
use pktauth.Socket.Recv.{Arrival, datagram}
use pktauth.Socket.Recv.Drain.{IsRaw}
use pktauth.Socket.Recv.Calls.{Call, IsCall, Session, ready_calls, poll_calls}
use pktauth.Socket.Recv.Calls.Arrives.{IsAmong, poll_calls-Arrives}
use pktauth.Socket.Send.{Transmit, Sending, PacketSender, poll_send}
use pktauth.Socket.Send.Answers.{Readiness}
use pktauth.Socket.Send.PollSend.{
  IsWithin, Sent, delivered, dropped, waiting, unready, poll_send-Sent,
}
use pktauth.Programs.Setup.{Endpoint, ServerArgs, ClientArgs, server_setup, client_setup}
use pktauth.Programs.Admission.{initial_dst-Admitted, server-Admitted, client-Admitted}

-- The first datagram that the sender put on the wire since `before` is the k-th arrival.
pub record Crosses (before after : Sending) (from : SocketAddr) (queue : List Arrival) (k : ℕ)
    : Type 0 where
  pub to : SocketAddr
  pub payload : List ℕ
  pub sent : get_elem? after.wire (length before.wire) ≡ some (to, payload)
  pub arrived : get_elem? queue k ≡ some (datagram payload from)

after-end {ℓ} :
    {A : Type ℓ} (xs : List A) (x y : A) → get_elem? (xs ++ (x ∷ [])) (length xs) ≡ some y → x ≡ y
after-end [] x y e = cc
after-end (z ∷ xs) x y e = after-end xs x y e

past-end {ℓ} : {A : Type ℓ} (xs : List A) (y : A) → ¬ (get_elem? xs (length xs) ≡ some y)
past-end xs y e = omega (arith, lt-get_elem? xs (length xs) e)

-- All that a call of `poll_send` can put on the wire is its datagram.
Sent-contents :
    {transmit : Transmit} {readiness : Readiness} {before : Sending}
    {end : Poll (Result (Unit {0}) ErrorKind) × PacketSender} (to : SocketAddr) (payload : List ℕ)
    → Sent transmit readiness before end
    → get_elem? end.1.sending.wire (length before.wire) ≡ some (to, payload)
    → payload ≡ transmit.contents
Sent-contents {before = before} to payload (delivered tries n answers _ _ _) e =
    let same = after-end before.wire _ (to, payload) e in sym (ap (λ d. d.1) same)
Sent-contents {before = before} to payload (dropped tries kind answers _ _ _ _) e =
    absurd (past-end before.wire _ e)
Sent-contents {before = before} to payload (waiting tries answers _ _ _ _) e =
    absurd (past-end before.wire _ e)
Sent-contents {before = before} to payload (unready tries kind answers _ _ _) e =
    absurd (past-end before.wire _ e)

crossed :
    (readiness : List (Poll (Result (Unit {0}) ErrorKind))) (transmit : Transmit)
    (sender : PacketSender) (end : Poll (Result (Unit {0}) ErrorKind) × PacketSender)
    (from : SocketAddr) (queue : List Arrival) (k : ℕ)
    → IsWithin transmit
    → poll_send readiness transmit sender ≡ done end
    → Crosses sender.sending end.1.sending from queue k
    → get_elem? queue k ≡ some (datagram transmit.contents from)
crossed readiness transmit sender end from queue k within runs crosses =
    let (end', runs', sent) = poll_send-Sent readiness transmit sender within in
    let same : end' ≡ end = cc (runs, runs') in
    let own =
      Sent-contents crosses.to crosses.payload
        (subst (Sent transmit readiness sender.sending) same sent) crosses.sent in
    subst (λ payload. get_elem? queue k ≡ some (datagram payload from)) own crosses.arrived

module _ (aes : Aes128) (size : ℕ) (calls : List Call) (queue : List Arrival)
    (are : All (IsCall size) calls) (raw : All IsRaw queue)
    (enough : length queue ≤ ready_calls calls) where
  -- A packet on the wire that the other end's authenticator admits.
  arrives :
      (a : Authenticator) (socket : PacketSocket) (from : SocketAddr)
      (readiness : List (Poll (Result (Unit {0}) ErrorKind))) (transmit : Transmit)
      (sender : PacketSender) (end : Poll (Result (Unit {0}) ErrorKind) × PacketSender) (k : ℕ)
      → socket.authenticator ≡ some a
      → (AreBytes transmit.contents → check aes a transmit.contents from.ip ≡ done (ok tt))
      → IsWithin transmit
      → length transmit.contents ≤ size
      → poll_send readiness transmit sender ≡ done end
      → Crosses sender.sending end.1.sending from queue k
      → (s : Session) × (poll_calls aes socket queue calls ≡ done s)
        × IsAmong transmit.contents from s.packets
  arrives a socket from readiness transmit sender end k has admits within short runs crosses =
      let at = crossed readiness transmit sender end from queue k within runs crosses in
      let bytes : AreBytes transmit.contents = All-get_elem? IsRaw queue k raw at in
      poll_calls-Arrives aes a size transmit.contents from short (admits bytes) socket queue calls k
        has are raw enough at

  -- A client's Initial reaches the server's Quinn: the client is set up for the server's address and
  -- the server has an authenticator; the Initial carries the destination that the client mints, and
  -- the network delivers what `poll_send` puts on the wire for it, with the client's source address.
  -- Then, whatever other arrivals come before and after it, as many calls of the server's `poll_recv`
  -- on a readable socket as there are arrivals do not panic and hand it over whole, with its source,
  -- where the buffers are as long as it is.
  pub initial-Arrives :
      (server_args : ServerArgs) (client_args : ClientArgs) (server client : Endpoint)
      (a : Authenticator) (peers : Peers) (random cid : List ℕ)
      (readiness : List (Poll (Result (Unit {0}) ErrorKind))) (transmit : Transmit)
      (sender : PacketSender) (end : Poll (Result (Unit {0}) ErrorKind) × PacketSender) (port k : ℕ)
      → server_setup server_args ≡ ok server
      → client_setup client_args ≡ ok client
      → client_args.server.ip ≡ server_args.listen.ip
      → server.socket.authenticator ≡ some a
      → client.initial_dst ≡ some peers
      → length random ≡ 8
      → initial_dst_cid_provider aes peers random ≡ done cid
      → IsWithin transmit
      → Carries transmit.contents cid
      → length transmit.contents ≤ size
      → poll_send readiness transmit sender ≡ done end
      → Crosses sender.sending end.1.sending
          (record { ip = v4 client_args.local_ip; port = port })
          queue
          k
      → (s : Session) × (poll_calls aes server.socket queue calls ≡ done s)
        × IsAmong transmit.contents (record { ip = v4 client_args.local_ip; port = port }) s.packets
  initial-Arrives server_args client_args server client a peers random cid readiness transmit sender
        end port k se ce same has dst eight minted within carried short runs crosses =
      arrives a server.socket (record { ip = v4 client_args.local_ip; port = port }) readiness
        transmit sender end k has
        (λ bytes.
          initial_dst-Admitted aes server_args client_args server client a peers random cid
            transmit.contents se ce same has dst eight minted bytes carried)
        within short runs crosses

  -- What a client sends to the server later reaches the server's Quinn: the packet carries a
  -- connection ID that the server issued for the client's address, and the network delivers what the
  -- client's `poll_send` puts on the wire for it, from that address. Then, whatever other arrivals
  -- come before and after it, as many calls of the server's `poll_recv` on a readable socket as there
  -- are arrivals do not panic and hand it over whole, with its source, where the server has an
  -- authenticator and the buffers are as long as the packet.
  pub later-Arrives :
      (args : ServerArgs) (server : Endpoint) (a : Authenticator) (ip : Ipv4Addr) (port : ℕ)
      (hint : Option IpAddr) (random cid : List ℕ)
      (readiness : List (Poll (Result (Unit {0}) ErrorKind))) (transmit : Transmit)
      (sender : PacketSender) (end : Poll (Result (Unit {0}) ErrorKind) × PacketSender) (k : ℕ)
      → server_setup args ≡ ok server
      → server.socket.authenticator ≡ some a
      → length random ≡ 8
      → generate_cid_for aes server.generator (record { ip = v4 ip; port = port }) hint random
        ≡ done cid
      → IsWithin transmit
      → Carries transmit.contents cid
      → length transmit.contents ≤ size
      → poll_send readiness transmit sender ≡ done end
      → Crosses sender.sending end.1.sending (record { ip = v4 ip; port = port }) queue k
      → (s : Session) × (poll_calls aes server.socket queue calls ≡ done s)
        × IsAmong transmit.contents (record { ip = v4 ip; port = port }) s.packets
  later-Arrives args server a ip port hint random cid readiness transmit sender end k se has eight
        issued within carried short runs crosses =
      arrives a server.socket (record { ip = v4 ip; port = port }) readiness transmit sender end k
        has
        (λ bytes.
          server-Admitted aes args server a ip port hint random cid transmit.contents se has eight
            issued bytes carried)
        within short runs crosses

  -- What the server sends to a client reaches the client's Quinn: the packet carries a connection ID
  -- that the client issued for the server's address, and the network delivers what the server's
  -- `poll_send` puts on the wire for it, from that address. Then, whatever other arrivals come before
  -- and after it, as many calls of the client's `poll_recv` on a readable socket as there are
  -- arrivals do not panic and hand it over whole, with its source, where the buffers are as long as
  -- it is.
  pub reply-Arrives :
      (args : ClientArgs) (client : Endpoint) (ip : Ipv4Addr) (port : ℕ) (hint : Option IpAddr)
      (random cid : List ℕ) (readiness : List (Poll (Result (Unit {0}) ErrorKind)))
      (transmit : Transmit) (sender : PacketSender)
      (end : Poll (Result (Unit {0}) ErrorKind) × PacketSender) (k : ℕ)
      → client_setup args ≡ ok client
      → length random ≡ 8
      → generate_cid_for aes client.generator (record { ip = v4 ip; port = port }) hint random
        ≡ done cid
      → IsWithin transmit
      → Carries transmit.contents cid
      → length transmit.contents ≤ size
      → poll_send readiness transmit sender ≡ done end
      → Crosses sender.sending end.1.sending (record { ip = v4 ip; port = port }) queue k
      → (s : Session) × (poll_calls aes client.socket queue calls ≡ done s)
        × IsAmong transmit.contents (record { ip = v4 ip; port = port }) s.packets
  reply-Arrives args client ip port hint random cid readiness transmit sender end k ce eight issued
        within carried short runs crosses =
      let from : SocketAddr = record { ip = v4 ip; port = port } in
      let at = crossed readiness transmit sender end from queue k within runs crosses in
      let (a, has, admitted) =
        client-Admitted aes args client ip port hint random cid transmit.contents ce eight issued
          (All-get_elem? IsRaw queue k raw at) carried in
      arrives a client.socket from readiness transmit sender end k has (λ bytes. admitted) within
        short runs crosses
