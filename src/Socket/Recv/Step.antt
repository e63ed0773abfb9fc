-- ===== src/Socket/Recv/Step.antt =====
-- One datagram in the inner loop.
use pktauth.Base.{
  ℕ, suc, ◌+◌, ◌≤◌, ◌<◌, List, [], ◌∷◌, ◌++◌, ◌≡◌, inl, inr, refl, sym, ◌∙◌, ap, Option, none, some,
  Bool, min,
}
use pktauth.Base.{
  done, take, drop, set, slice, slice-append, take-append, length, length-take, length-drop,
  length-append, All, get_elem?, if◌then◌else◌, Bool-cases, append-nil, arith,
}
use pktauth.Base.Bytes.{AreBytes, AreBytes-take}
use pktauth.Base.Slots.{take-min, length-set, get_elem?-lt, lt-get_elem?, All-get_elem?, All-set}
use pktauth.Net.{SocketAddr}
use pktauth.Auth.Cipher.{Aes128}
use pktauth.Auth.Authenticator.{Authenticator}
use pktauth.Auth.Authenticator.Admits.{check-CheckReason}
use pktauth.Socket.Recv.{datagram, Receiving, RecvMeta, go_on}
use pktauth.Socket.Recv.{count_received, count_rejected, authenticate, hand_over, receive_one}
use pktauth.Socket.Recv.Delivered.{delivered, delivered-set, delivered-set_buf}
use pktauth.Socket.Recv.Drain.{keep, passes, truncated, count_one, Fits}

-- What is read back from a buffer is what was written to its front.
slice-written :
    (payload buf : List ℕ) (size : ℕ)
    → length buf ≡ size
    → let len = min (length payload) (length buf) in
      slice (take len payload ++ drop len buf) 0 len ≡ some (take size payload)
slice-written payload buf size h =
    let len : ℕ = min (length payload) (length buf) in
    slice-append [] (take len payload) (drop len buf) 0 len refl
      (omega (arith, length-take len payload))
    ∙ ap some (take-min (length buf) payload ∙ ap (λ n. take n payload) h)

module _ (aes : Aes128) where
  -- The authenticator's answer on a datagram in a buffer is the specification's.
  authenticate-passes :
      (authenticator : Option Authenticator) (payload buf : List ℕ) (size : ℕ) (from : SocketAddr)
      → AreBytes payload
      → length buf ≡ size
      → let len = min (length payload) (length buf) in
        authenticate aes authenticator (take len payload ++ drop len buf) len from.ip
        ≡ done (passes aes authenticator size (truncated aes authenticator size payload from))
  unfolding authenticate
  authenticate-passes none payload buf size from bytes h = refl
  authenticate-passes (some a) payload buf size from bytes h =
      let (v, checked, reason) =
        check-CheckReason aes a (take size payload) from.ip (AreBytes-take size payload bytes) in
      rw (slice-written payload buf size h, checked)

  module _ (authenticator : Option Authenticator) (size : ℕ) where
    -- The slot's buffer after the read.
    abbrev written : List ℕ → List ℕ → List ℕ
    written payload buf =
        let len = min (length payload) (length buf) in take len payload ++ drop len buf

    -- The state after a datagram that passes, and after one that does not.
    abbrev handed_over : Receiving → List ℕ → List ℕ → SocketAddr → Receiving
    handed_over s buf payload from =
        let len = min (length payload) (length buf) in
        record s {
          socket = count_received len s.socket;
          bufs = set s.bufs s.filled (written payload buf);
          meta = set s.meta s.filled (record { addr = from; len = len; stride = len });
          filled = s.filled + 1;
        }

    abbrev dropped : Receiving → List ℕ → List ℕ → Receiving
    dropped s buf payload = record s {
      socket = count_rejected (count_received (min (length payload) (length buf)) s.socket);
      bufs = set s.bufs s.filled (written payload buf);
    }

    abbrev pub after : Receiving → List ℕ → List ℕ → SocketAddr → Receiving
    after s buf payload from =
        if passes aes authenticator size (truncated aes authenticator size payload from)
        then handed_over s buf payload from
        else dropped s buf payload

    hand_over-lt :
        (s : Receiving) (from : SocketAddr) (len : ℕ)
        → s.filled < length s.meta
        → hand_over aes s from len
          ≡ go_on (record s {
            meta = set s.meta s.filled (record { addr = from; len = len; stride = len });
            filled = s.filled + 1;
          })
    unfolding hand_over
    hand_over-lt s from len h =
        let (m, found) = get_elem?-lt s.meta s.filled h in rw (found, hand_over)

    -- With a slot for it, a datagram is counted, and is handed over exactly if it passes.
    pub receive_one-after :
        (s : Receiving) (buf payload : List ℕ) (from : SocketAddr)
        → Fits aes authenticator size s
        → get_elem? s.bufs s.filled ≡ some buf
        → AreBytes payload
        → receive_one aes s buf (datagram payload from) ≡ done (go_on (after s buf payload from))
    unfolding receive_one
    receive_one-after s buf payload from f found bytes =
        let room : length buf ≡ size =
          All-get_elem? (λ b. length b ≡ size) s.bufs s.filled f.capacities found in
        let inside : s.filled < length s.bufs = lt-get_elem? s.bufs s.filled found in
        rw (f.own, authenticate-passes authenticator payload buf size from bytes room)
          (elim (Bool-cases verdict) [
            | inl e ↦ rw e (ap done (hand_over-lt _ from _ (omega (arith, f.described, inside))))
            | inr e ↦ rw e
          ])
      where
        verdict : Bool
        verdict = passes aes authenticator size (truncated aes authenticator size payload from)

    pub after-Fits :
        (s : Receiving) (buf payload : List ℕ) (from : SocketAddr)
        → Fits aes authenticator size s
        → get_elem? s.bufs s.filled ≡ some buf
        → Fits aes authenticator size (after s buf payload from)
    after-Fits s buf payload from f found =
        elim (Bool-cases
          (passes aes authenticator size (truncated aes authenticator size payload from))) [
            | inl e ↦ rw e (record {
              capacities = capacities;
              described = described';
              within = omega (arith, inside, length-set s.bufs s.filled (written payload buf));
              own = f.own;
            })
            | inr e ↦ rw e (record {
              capacities = capacities;
              described =
                  omega (arith, f.described, length-set s.bufs s.filled (written payload buf));
              within = omega (arith, f.within, length-set s.bufs s.filled (written payload buf));
              own = f.own;
            })
          ]
      where
        room : length buf ≡ size
        room = All-get_elem? (λ b. length b ≡ size) s.bufs s.filled f.capacities found

        inside : s.filled < length s.bufs
        inside = lt-get_elem? s.bufs s.filled found

        len : ℕ
        len = min (length payload) (length buf)

        capacities : All (λ b. length b ≡ size) (set s.bufs s.filled (written payload buf))
        capacities =
            All-set (λ b. length b ≡ size) s.bufs s.filled (written payload buf) f.capacities
              (omega (
                arith,
                room,
                length-append (take len payload) (drop len buf),
                length-take len payload,
                length-drop len buf,
              ))

        described' :
            length (set s.bufs s.filled (written payload buf))
            ≤ length (set s.meta s.filled (record { addr = from; len = len; stride = len }))
        described' = omega (
          arith,
          f.described,
          length-set s.bufs s.filled (written payload buf),
          length-set s.meta s.filled (record { addr = from; len = len; stride = len }),
        )

    pub after-delivered :
        (s : Receiving) (buf payload : List ℕ) (from : SocketAddr)
        → Fits aes authenticator size s
        → get_elem? s.bufs s.filled ≡ some buf
        → let s' = after s buf payload from in
          delivered s'.filled s'.bufs s'.meta
          ≡ delivered s.filled s.bufs s.meta
            ++ keep aes authenticator size (datagram payload from ∷ [])
    unfolding keep
    after-delivered s buf payload from f found =
        elim (Bool-cases
          (passes aes authenticator size (truncated aes authenticator size payload from))) [
            | inl e ↦ rw e (
                ap
                  (λ n.
                    delivered n (set s.bufs s.filled (written payload buf)) (set s.meta s.filled m))
                  next
                ∙ delivered-set s.filled s.bufs s.meta (written payload buf) m inside
                    (omega (arith, f.described, inside))
                ∙ ap
                    (λ b.
                      delivered s.filled s.bufs s.meta ++ (record { bytes = b; from = from } ∷ []))
                    read_back)
            | inr e ↦ rw e (
                delivered-set_buf s.filled s.filled s.bufs s.meta (written payload buf)
                  (omega arith)
                ∙ sym (append-nil _))
          ]
      where
        room : length buf ≡ size
        room = All-get_elem? (λ b. length b ≡ size) s.bufs s.filled f.capacities found

        inside : s.filled < length s.bufs
        inside = lt-get_elem? s.bufs s.filled found

        len : ℕ
        len = min (length payload) (length buf)

        m : RecvMeta
        m = record { addr = from; len = len; stride = len }

        next : s.filled + 1 ≡ suc s.filled
        next = omega arith

        read_back : take len (written payload buf) ≡ take size payload
        read_back =
            take-append (take len payload) (drop len buf) len
              (omega (arith, length-take len payload))
            ∙ take-min (length buf) payload
            ∙ ap (λ n. take n payload) room

    pub after-counted :
        (s : Receiving) (buf payload : List ℕ) (from : SocketAddr)
        → Fits aes authenticator size s
        → get_elem? s.bufs s.filled ≡ some buf
        → (after s buf payload from).socket ≡ count_one aes authenticator size payload from s.socket
    after-counted s buf payload from f found =
        elim (Bool-cases
          (passes aes authenticator size (truncated aes authenticator size payload from))) [
            | inl e ↦ rw e (ap (λ n. count_received (min (length payload) n) s.socket) room)
            | inr e ↦
                rw e
                  (ap (λ n. count_rejected (count_received (min (length payload) n) s.socket)) room)
          ]
      where
        room : length buf ≡ size
        room = All-get_elem? (λ b. length b ≡ size) s.bufs s.filled f.capacities found
