-- ===== src/Socket/Recv/PollRecv/Counts.antt =====
-- The counters after `poll_recv`.
use pktauth.Base.{
  ℕ, zero, suc, ◌+◌, ◌%◌, ◌^◌, ◌<◌, ◌≤◌, List, [], ◌∷◌, ◌++◌, ◌≡◌, refl, sym, ◌∙◌, ap, Option,
}
use pktauth.Base.{
  take, if◌then◌else◌, min, subst, Result, Bool-cases, inl, inr, length, All, done, ok, err, arith,
}
use pktauth.Auth.Cipher.{Aes128}
use pktauth.Auth.Authenticator.{Authenticator}
use pktauth.Socket.Counters.{PacketSocket, Poll, ready, pending, ErrorKind}
use pktauth.Socket.Recv.{
  count_received, count_rejected, Arrival, datagram, failed, RecvMeta, Polled, poll_recv,
}
use pktauth.Socket.Recv.Delivered.{delivered}
use pktauth.Socket.Recv.Drain.{IsRaw, passes, truncated, keep, tally}
use pktauth.Socket.Recv.PollRecv.{Readiness, handed_over, waits, reports, Answers}
use pktauth.Socket.Recv.PollRecv.Rounds.{poll_recv-Delivers}

module _ (aes : Aes128) (authenticator : Option Authenticator) (size : ℕ) where
  -- The datagrams of a queue, their bytes as buffers of `size` bytes take them, and those of them
  -- that the authenticator does not pass.
  abbrev pub datagrams : List Arrival → ℕ
  datagrams [] = 0
  datagrams (datagram payload from ∷ queue) = 1 + datagrams queue
  datagrams (failed kind ∷ queue) = datagrams queue

  abbrev pub stored : List Arrival → ℕ
  stored [] = 0
  stored (datagram payload from ∷ queue) = min (length payload) size + stored queue
  stored (failed kind ∷ queue) = stored queue

  abbrev pub refusals : List Arrival → ℕ
  refusals [] = 0
  refusals (datagram payload from ∷ queue) =
      if passes aes authenticator size (record { bytes = take size payload; from = from })
      then refusals queue
      else suc (refusals queue)
  refusals (failed kind ∷ queue) = refusals queue

  -- After `consumed` was taken and `kept` packets of it handed over: the counters of receiving grow
  -- by its datagrams, their bytes and those that were refused, modulo 2 ^ 64, every datagram was
  -- handed over or refused, and the rest of the socket stays.
  pub record Counted (before after : PacketSocket) (consumed : List Arrival) (kept : ℕ)
      : Type 0 where
    pub split : kept + refusals consumed ≡ datagrams consumed
    pub received :
        after.counters.received ≡ (before.counters.received + datagrams consumed) % 2 ^ 64
    pub received_bytes :
        after.counters.received_bytes % 2 ^ 64
        ≡ (before.counters.received_bytes + stored consumed) % 2 ^ 64
    pub rejected : after.counters.rejected ≡ (before.counters.rejected + refusals consumed) % 2 ^ 64
    pub sent : after.counters.sent ≡ before.counters.sent
    pub sent_bytes : after.counters.sent_bytes ≡ before.counters.sent_bytes
    pub authenticator_stays : after.authenticator ≡ before.authenticator

-- The packets that an answer hands over.
abbrev pub handed_count : Poll (Result ℕ ErrorKind) → ℕ
handed_count (ready (ok n)) = n
handed_count (ready (err kind)) = 0
handed_count pending = 0

abbrev pub handed : Polled → ℕ
handed p = handed_count p.answer

pub length-delivered :
    (n : ℕ) (bufs : List (List ℕ)) (meta : List RecvMeta)
    → n ≤ length bufs
    → n ≤ length meta
    → length (delivered n bufs meta) ≡ n
unfolding delivered
length-delivered zero bufs meta h k = refl
length-delivered (suc n) [] meta h k = absurd (omega arith)
length-delivered (suc n) (b ∷ bufs) [] h k = absurd (omega arith)
length-delivered (suc n) (b ∷ bufs) (m ∷ meta) h k =
    ap suc (length-delivered n bufs meta (omega arith) (omega arith))

module _ (aes : Aes128) (authenticator : Option Authenticator) (size : ℕ) where
  abbrev Tallied : List Arrival → PacketSocket → Type 0
  Tallied queue socket =
      Counted aes authenticator size socket (tally aes authenticator size queue socket) queue
        (length (keep aes authenticator size queue))

  pub tally-Counted :
      (queue : List Arrival) (socket : PacketSocket)
      → socket.counters.received < 2 ^ 64
      → socket.counters.rejected < 2 ^ 64
      → Tallied queue socket
  unfolding tally keep
  tally-Counted [] socket h k = record {
    split = refl;
    received = omega arith;
    received_bytes = omega arith;
    rejected = omega arith;
    sent = refl;
    sent_bytes = refl;
    authenticator_stays = refl;
  }
  tally-Counted (failed kind ∷ queue) socket h k =
      let c = tally-Counted queue socket h k in
      record {
        split = c.split;
        received = c.received;
        received_bytes = c.received_bytes;
        rejected = c.rejected;
        sent = c.sent;
        sent_bytes = c.sent_bytes;
        authenticator_stays = c.authenticator_stays;
      }
  tally-Counted (datagram payload from ∷ queue) socket h k =
      elim (Bool-cases
        (passes aes authenticator size (truncated aes authenticator size payload from))) [
          | inl e ↦ rw e (
              let c = tally-Counted queue (count_received len socket) (omega arith) k in
              record {
                split = rw e (omega (arith, c.split));
                received = omega (arith, c.received);
                received_bytes = omega (arith, c.received_bytes);
                rejected = rw e c.rejected;
                sent = c.sent;
                sent_bytes = c.sent_bytes;
                authenticator_stays = c.authenticator_stays;
              })
          | inr e ↦ rw e (
              let c =
                tally-Counted queue (count_rejected (count_received len socket)) (omega arith)
                  (omega arith) in
              record {
                split = rw e (omega (arith, c.split));
                received = omega (arith, c.received);
                received_bytes = omega (arith, c.received_bytes);
                rejected = rw e (omega (arith, c.rejected));
                sent = c.sent;
                sent_bytes = c.sent_bytes;
                authenticator_stays = c.authenticator_stays;
              })
        ]
    where
      len : ℕ
      len = min (length payload) size

  kept-handed :
      (readiness : Readiness) (consumed : List Arrival) (p : Polled)
      → Answers aes authenticator size readiness consumed p
      → length (keep aes authenticator size consumed) ≡ handed p
  kept-handed readiness consumed p (handed_over n e pos fits described same) =
      ap length (sym same)
      ∙ length-delivered n p.state.bufs p.state.meta fits described
      ∙ sym (ap handed_count e)
  kept-handed readiness consumed p (waits e nothing) = ap length nothing ∙ sym (ap handed_count e)
  kept-handed readiness consumed p (reports kind e nothing why) =
      ap length nothing ∙ sym (ap handed_count e)

-- The counters after `poll_recv`: it took a front of the arrivals. `received` grows by the datagrams
-- of that front, `received_bytes` by their bytes in the buffers, and `rejected` by those of them that
-- the socket's authenticator does not pass, modulo 2 ^ 64; the others are as many as the packets
-- handed over; and what concerns sending stays.
pub poll_recv-Counted :
    (aes : Aes128) (size : ℕ) (socket : PacketSocket) (bufs : List (List ℕ)) (meta : List RecvMeta)
    (readiness : Readiness) (queue : List Arrival)
    → All (λ buf. length buf ≡ size) bufs
    → length bufs ≤ length meta
    → All IsRaw queue
    → socket.counters.received < 2 ^ 64
    → socket.counters.rejected < 2 ^ 64
    → (p : Polled) × (consumed : List Arrival) × (poll_recv aes socket bufs meta readiness queue
        ≡ done p)
      × (queue ≡ consumed ++ p.queue)
      × Counted aes socket.authenticator size socket p.state.socket consumed (handed p)
poll_recv-Counted aes size socket bufs meta readiness queue same enough raw h k =
    let (p, runs, d) =
      poll_recv-Delivers aes size socket bufs meta readiness queue same enough raw in
    let c = tally-Counted aes socket.authenticator size d.consumed socket h k in
    let kept = kept-handed aes socket.authenticator size readiness d.consumed p d.answers in
    let tallied = tally aes socket.authenticator size d.consumed socket in
    let matched = subst (Counted aes socket.authenticator size socket tallied d.consumed) kept c in
    (
      p,
      d.consumed,
      runs,
      d.split,
      subst (λ t. Counted aes socket.authenticator size socket t d.consumed (handed p))
          (sym d.counted) matched,
    )
