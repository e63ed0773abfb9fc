-- ===== src/Socket/Recv/Calls/Arrives.antt =====
-- What becomes of one datagram among the arrivals.
use pktauth.Base.{ℕ, zero, suc, ◌≤◌, List, [], ◌∷◌, ◌++◌, ◌≡◌, refl, sym, ap, ◌∙◌, subst, arith}
use pktauth.Base.{
  some, done, ok, inl, inr, Bool-cases, All, length, take, take_more, get_elem?, append-nil,
}
use pktauth.Net.{SocketAddr}
use pktauth.Auth.Cipher.{Aes128}
use pktauth.Auth.Authenticator.{Authenticator, check}
use pktauth.Socket.Counters.{PacketSocket}
use pktauth.Socket.Recv.{Arrival, datagram, failed}
use pktauth.Socket.Recv.Delivered.{Packet}
use pktauth.Socket.Recv.Drain.{IsRaw, keep, accepts}
use pktauth.Socket.Recv.Calls.{Call, IsCall, Session, ready_calls, poll_calls}
use pktauth.Socket.Recv.Calls.Received.{poll_calls-Received}

-- A packet is among those handed over.
abbrev pub IsAmong : List ℕ → SocketAddr → List Packet → Type 0
IsAmong payload from packets =
    (j : ℕ) × (get_elem? packets j ≡ some (record { bytes = payload; from = from }))

length-zero {ℓ} : {A : Type ℓ} (xs : List A) → length xs ≡ 0 → xs ≡ []
length-zero [] h = refl
length-zero (x ∷ xs) h = absurd (omega arith)

module _ (aes : Aes128) (a : Authenticator) (size : ℕ) (payload : List ℕ) (from : SocketAddr)
    (fits : length payload ≤ size) (admitted : check aes a payload from.ip ≡ done (ok tt)) where
  IsAmong-later :
      (packet : Packet) (packets : List Packet)
      → IsAmong payload from packets
      → IsAmong payload from (packet ∷ packets)
  IsAmong-later packet packets (j, at) = (suc j, at)

  -- What the queue keeps of it, at any place.
  keep-at :
      (queue : List Arrival) (k : ℕ)
      → get_elem? queue k ≡ some (datagram payload from)
      → IsAmong payload from (keep aes (some a) size queue)
  unfolding keep
  keep-at [] k at = cc
  keep-at (failed kind ∷ queue) zero at = cc
  keep-at (failed kind ∷ queue) (suc k) at = keep-at queue k at
  keep-at (datagram other source ∷ queue) zero at =
      let same : other ≡ payload = cc in
      let sender : source ≡ from = cc in
      rw (same, sender, take_more payload size fits, admitted) (zero, refl)
  keep-at (datagram other source ∷ queue) (suc k) at =
      elim (Bool-cases (accepts (check aes a (take size other) source.ip))) [
        | inl passed ↦ rw passed (IsAmong-later _ _ (keep-at queue k at))
        | inr refused ↦ rw refused (keep-at queue k at)
      ]

  -- An authentic datagram that fits the buffers is handed over, whole and with its source, whatever
  -- arrives before and after it: as many calls on a readable socket as there are arrivals hand it to
  -- Quinn, and none of them panics.
  pub poll_calls-Arrives :
      (socket : PacketSocket) (queue : List Arrival) (calls : List Call) (k : ℕ)
      → socket.authenticator ≡ some a
      → All (IsCall size) calls
      → All IsRaw queue
      → length queue ≤ ready_calls calls
      → get_elem? queue k ≡ some (datagram payload from)
      → (s : Session) × (poll_calls aes socket queue calls ≡ done s)
        × IsAmong payload from s.packets
  poll_calls-Arrives socket queue calls k own are raw enough at =
      let (s, runs, received) = poll_calls-Received aes size socket queue calls are raw in
      let left : length s.queue ≡ 0 = omega (arith, received.progress) in
      let whole : queue ≡ received.consumed =
        received.split
        ∙ ap (λ rest. received.consumed ++ rest) (length-zero s.queue left)
        ∙ append-nil received.consumed in
      let all : s.packets ≡ keep aes (some a) size queue =
        received.handed_over
        ∙ ap (λ o. keep aes o size received.consumed) own
        ∙ ap (keep aes (some a) size) (sym whole) in
      (s, runs, subst (IsAmong payload from) (sym all) (keep-at queue k at))
