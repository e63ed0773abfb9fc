-- ===== src/Programs/Flood.antt =====
-- src/bin/blaster.rs against src/socket.rs: what a receiving end makes of a sender thread's probes.
mod Tests
use pktauth.Base.{
  ℕ, zero, suc, ◌+◌, ◌-◌, ◌^◌, ◌<◌, ◌≤◌, List, [], ◌∷◌, ◌++◌, ◌≡◌, refl, sym, ap, ◌∙◌, subst, arith,
}
use pktauth.Base.{Bool, some, Run, done, Result, ok, err, All, length, take, replicate, get_elem?}
use pktauth.Base.Slots.{All-get_elem?}
use pktauth.Base.Bytes.{
  AreBytes, AreBytes-append, AreBytes-take, AreBytes-replicate, to_be_bytes-AreBytes, to_be_bytes,
}
use pktauth.Auth.Cipher.{Aes128}
use pktauth.Auth.Authenticator.{Authenticator}
use pktauth.Socket.Counters.{PacketSocket, ErrorKind}
use pktauth.Socket.Recv.{Arrival, datagram, failed}
use pktauth.Socket.Recv.Drain.{IsRaw, keep, tally}
use pktauth.Socket.Recv.Calls.{Call, IsCall, Session, ready_calls, poll_calls}
use pktauth.Socket.Recv.Calls.Received.{Received, poll_calls-Received}
use pktauth.Socket.Recv.PollRecv.Admitted.{IsAuthentic, keep-IsAuthentic, All-left}
use pktauth.Socket.Recv.PollRecv.Counts.{Counted, tally-Counted}
use pktauth.Blaster.Rng.{SplitMix64, next}
use pktauth.Blaster.Template.Outcome.{trailer}
use pktauth.Blaster.Template.Fresh.{fresh_cid}
use pktauth.Blaster.Blast.{Blasting, Stats, blast}
use pktauth.Blaster.Blast.Wire.{IsLaid}
use pktauth.Blaster.Blast.Sound.{Blasted-IsSound, blast-Blasted}

-- An arrival that is one of the datagrams on the wire, from whatever source, or an error.
abbrev pub IsFrom : List (List ℕ) → Arrival → Type 0
IsFrom wire (datagram payload from) = (p : ℕ) × (get_elem? wire p ≡ some payload)
IsFrom wire (failed kind) = Unit {0}

-- What a socket with the authenticator `a` and buffers of `capacity` bytes does with a flood: of the
-- front of it that was taken, what `a` passes was handed over, and everything else was counted as
-- rejected.
pub record TurnsAway (aes : Aes128) (a : Authenticator) (capacity : ℕ) (socket : PacketSocket)
    (queue : List Arrival) (calls : List Call) (s : Session) : Type 0 where
  pub authentic : All (IsAuthentic aes a) s.packets
  pub consumed : List Arrival
  pub split : queue ≡ consumed ++ s.queue
  pub counted : Counted aes (some a) capacity socket s.socket consumed (length s.packets)
  pub progress : length s.queue ≤ length queue - ready_calls calls

trailer-AreBytes : (size : ℕ) → AreBytes (trailer size)
trailer-AreBytes size =
    let field : List ℕ = to_be_bytes 2 (0x4000 + (size - 50)) in
    let payload : List ℕ = replicate (size - 54) 0x42 in
    let rest : AreBytes (0 ∷ (field ++ (replicate 4 0 ++ payload))) = (
      omega arith,
      AreBytes-append field (replicate 4 0 ++ payload)
          (to_be_bytes-AreBytes 2 (0x4000 + (size - 50)))
          (AreBytes-append (replicate 4 0) payload (AreBytes-replicate 4 0 (omega arith))
            (AreBytes-replicate (size - 54) 0x42 (omega arith))),
    ) in
    (
      omega arith,
      AreBytes-append (replicate 20 0x5a) (0 ∷ (field ++ (replicate 4 0 ++ payload)))
          (AreBytes-replicate 20 0x5a (omega arith)) rest,
    )

module _ (to_ne_bytes : ℕ → List ℕ) (length-to_ne_bytes : (w : ℕ) → length (to_ne_bytes w) ≡ 8)
    (to_ne_bytes-AreBytes : (w : ℕ) → AreBytes (to_ne_bytes w)) where
  fresh_cid-AreBytes : (rng : SplitMix64) → AreBytes (fresh_cid to_ne_bytes rng)
  fresh_cid-AreBytes rng = AreBytes-append (to_ne_bytes _) _ (to_ne_bytes-AreBytes _) (
      AreBytes-append (to_ne_bytes _) _ (to_ne_bytes-AreBytes _)
        (AreBytes-take 4 (to_ne_bytes _) (to_ne_bytes-AreBytes _)))

  IsLaid-AreBytes :
      (size : ℕ) (payload : List ℕ) → IsLaid to_ne_bytes size payload → AreBytes payload
  IsLaid-AreBytes size payload (rng, laid) =
      let cid = fresh_cid to_ne_bytes rng in
      let body : AreBytes (cid ++ trailer size) =
        AreBytes-append cid (trailer size) (fresh_cid-AreBytes rng) (trailer-AreBytes size) in
      subst AreBytes (sym laid)
        (AreBytes-append (0xc3 ∷ 0 ∷ 0 ∷ 0 ∷ 1 ∷ 20 ∷ []) (cid ++ trailer size) (omega arith) body)

  IsFrom-IsRaw :
      (size : ℕ) (wire : List (List ℕ)) (queue : List Arrival)
      → All (IsLaid to_ne_bytes size) wire
      → All (IsFrom wire) queue
      → All IsRaw queue
  IsFrom-IsRaw size wire [] laid are = tt
  IsFrom-IsRaw size wire (failed kind ∷ queue) laid are =
      (tt, IsFrom-IsRaw size wire queue laid are.1)
  IsFrom-IsRaw size wire (datagram payload from ∷ queue) laid are =
      let (p, at) = are.0 in
      (
        IsLaid-AreBytes size payload (All-get_elem? (IsLaid to_ne_bytes size) wire p laid at),
        IsFrom-IsRaw size wire queue laid are.1,
      )

  -- Whichever datagrams of a sender thread reach a socket with an authenticator, however often, in
  -- whatever order and from whatever sources, `poll_recv` never panics on them. It takes a front of
  -- them: what it hands over carries tokens minted for the packets' own paths; `received` grows by
  -- all the datagrams of that front and `rejected` by exactly those that the authenticator does not
  -- pass, which are all that it does not hand over, modulo 2 ^ 64; and each call whose socket is
  -- readable takes an arrival while there is one. A word of the generator is eight bytes.
  pub blast-TurnsAway :
      (send : ℕ → List ℕ → Result ℕ ErrorKind) (size seed : ℕ) (running : List Bool) (stats : Stats)
      (b : Blasting) (aes : Aes128) (a : Authenticator) (capacity : ℕ) (socket : PacketSocket)
      (queue : List Arrival) (calls : List Call)
      → blast to_ne_bytes send (ok tt) (ok tt) size seed running stats ≡ done (ok b)
      → All (IsFrom b.wire) queue
      → socket.authenticator ≡ some a
      → socket.counters.received < 2 ^ 64
      → socket.counters.rejected < 2 ^ 64
      → All (IsCall capacity) calls
      → (s : Session) × (poll_calls aes socket queue calls ≡ done s)
        × TurnsAway aes a capacity socket queue calls s
  blast-TurnsAway send size seed running stats b aes a capacity socket queue calls blasted from own
        h k are =
      let sound =
        Blasted-IsSound to_ne_bytes length-to_ne_bytes send size seed running stats b
          (blast-Blasted to_ne_bytes length-to_ne_bytes send size seed running stats) blasted in
      let raw = IsFrom-IsRaw size b.wire queue sound.laid from in
      let (s, runs, received) = poll_calls-Received aes capacity socket queue calls are raw in
      let handed : s.packets ≡ keep aes (some a) capacity received.consumed =
        received.handed_over ∙ ap (λ o. keep aes o capacity received.consumed) own in
      let consumed_raw : All IsRaw received.consumed =
        All-left aes a received.consumed s.queue (subst (All IsRaw) received.split raw) in
      let tallied = tally aes (some a) capacity received.consumed socket in
      let counted : Counted aes (some a) capacity socket tallied received.consumed
          (length s.packets) =
        subst (λ ps. Counted aes (some a) capacity socket tallied received.consumed (length ps))
          (sym handed) (tally-Counted aes (some a) capacity received.consumed socket h k) in
      let after : s.socket ≡ tallied =
        received.counted ∙ ap (λ o. tally aes o capacity received.consumed socket) own in
      (
        s,
        runs,
        record {
          authentic =
              subst (All (IsAuthentic aes a)) (sym handed)
                (keep-IsAuthentic aes a capacity received.consumed consumed_raw);
          consumed = received.consumed;
          split = received.split;
          counted =
              subst
                (λ t. Counted aes (some a) capacity socket t received.consumed (length s.packets))
                (sym after) counted;
          progress = received.progress;
        },
      )
