-- ===== src/Socket/Recv/PollRecv/Admitted.antt =====
-- With an authenticator, what Quinn parses carries a token minted for the sender's path.
use pktauth.Base.{
  ℕ, ◌≤◌, List, [], ◌∷◌, ◌++◌, ◌≡◌, refl, sym, subst, some, true, Run, done, panic, ok, err, All,
  length, Bool-cases, inl, inr, take,
}
use pktauth.Base.Bytes.{AreBytes, AreBytes-take}
use pktauth.Net.{SocketAddr, Ipv4Addr, v4}
use pktauth.Auth.Cipher.{Aes128}
use pktauth.Auth.Verify.{Verdict}
use pktauth.Auth.Verify.Accepts.{IsMinted}
use pktauth.Auth.Cid.Format.{Carries}
use pktauth.Auth.Authenticator.{Authenticator, check}
use pktauth.Auth.Authenticator.Admits.{check-ok_iff}
use pktauth.Socket.Counters.{PacketSocket, ready}
use pktauth.Socket.Recv.{Arrival, datagram, failed, RecvMeta, Polled, poll_recv}
use pktauth.Socket.Recv.Delivered.{Packet, delivered}
use pktauth.Socket.Recv.Drain.{IsRaw, accepts, passes, truncated, keep}
use pktauth.Socket.Recv.PollRecv.{Readiness, handed_over, waits, reports, Answers, Delivers}
use pktauth.Socket.Recv.PollRecv.Rounds.{poll_recv-Delivers}

accepts-ok : (r : Run Verdict) → accepts r ≡ true → r ≡ done (ok tt)
accepts-ok (done (ok _)) e = refl
accepts-ok (done (err _)) e = cc
accepts-ok panic e = cc

module _ (aes : Aes128) (a : Authenticator) where
  -- A packet with a token for the authenticator's direction, minted from its own sender's address
  -- to the authenticator's.
  abbrev pub IsAuthentic : Packet → Type 0
  IsAuthentic packet =
      (ip : Ipv4Addr) × (cid : List ℕ) × (packet.from.ip ≡ v4 ip)
      × Carries packet.bytes cid
      × IsMinted aes cid a.inbound ip a.local_ip

  passes-IsAuthentic :
      (size : ℕ) (payload : List ℕ) (from : SocketAddr)
      → AreBytes payload
      → passes aes (some a) size (truncated aes (some a) size payload from) ≡ true
      → IsAuthentic (truncated aes (some a) size payload from)
  passes-IsAuthentic size payload from bytes e =
      (check-ok_iff aes a (take size payload) from.ip (AreBytes-take size payload bytes)).0
        (accepts-ok (check aes a (take size payload) from.ip) e)

  pub keep-IsAuthentic :
      (size : ℕ) (queue : List Arrival)
      → All IsRaw queue
      → All IsAuthentic (keep aes (some a) size queue)
  unfolding keep
  keep-IsAuthentic size [] raw = tt
  keep-IsAuthentic size (failed kind ∷ queue) raw = keep-IsAuthentic size queue raw.1
  keep-IsAuthentic size (datagram payload from ∷ queue) raw =
      elim (Bool-cases (passes aes (some a) size (truncated aes (some a) size payload from))) [
        | inl e ↦
            rw e (passes-IsAuthentic size payload from raw.0 e, keep-IsAuthentic size queue raw.1)
        | inr e ↦ rw e (keep-IsAuthentic size queue raw.1)
      ]

  pub All-left : (xs ys : List Arrival) → All IsRaw (xs ++ ys) → All IsRaw xs
  All-left [] ys h = tt
  All-left (x ∷ xs) ys h = (h.0, All-left xs ys h.1)

  -- With an authenticator every packet that `poll_recv` hands to Quinn carries a token minted for
  -- the authenticator's direction, from the packet's sender to the authenticator's address.
  pub poll_recv-IsAuthentic :
      (size : ℕ) (socket : PacketSocket) (bufs : List (List ℕ)) (meta : List RecvMeta)
      (readiness : Readiness) (queue : List Arrival) (p : Polled) (n : ℕ)
      → socket.authenticator ≡ some a
      → All (λ buf. length buf ≡ size) bufs
      → length bufs ≤ length meta
      → All IsRaw queue
      → poll_recv aes socket bufs meta readiness queue ≡ done p
      → p.answer ≡ ready (ok n)
      → All IsAuthentic (delivered n p.state.bufs p.state.meta)
  poll_recv-IsAuthentic size socket bufs meta readiness queue p n own same enough raw runs answer =
      of_answers d.answers
    where
      polled :
          (p : Polled) × (poll_recv aes socket bufs meta readiness queue ≡ done p)
          × Delivers aes socket.authenticator size readiness queue socket p
      polled = poll_recv-Delivers aes size socket bufs meta readiness queue same enough raw

      same_p : polled.0 ≡ p
      same_p = cc (polled.1, runs)

      d : Delivers aes (some a) size readiness queue socket p
      d =
          subst (λ o. Delivers aes o size readiness queue socket p) own
            (subst (Delivers aes socket.authenticator size readiness queue socket) same_p polled.2)

      of_answers :
          Answers aes (some a) size readiness d.consumed p
          → All IsAuthentic (delivered n p.state.bufs p.state.meta)
      of_answers (handed_over m e pos fits described same_packets) =
          let same_n : m ≡ n = cc (e, answer) in
          subst (λ k. All IsAuthentic (delivered k p.state.bufs p.state.meta)) same_n
            (subst (All IsAuthentic) (sym same_packets) (
              keep-IsAuthentic size d.consumed
                (All-left d.consumed p.queue (subst (All IsRaw) d.split raw))))
      of_answers (waits e nothing) = cc (e, answer)
      of_answers (reports kind e nothing why) = cc (e, answer)
