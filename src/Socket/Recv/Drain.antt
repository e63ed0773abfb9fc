-- ===== src/Socket/Recv/Drain.antt =====
-- What draining the socket should do: the arrivals are filtered in order, and counted.
use pktauth.Base.{
  ℕ, ◌≤◌, ◌<◌, List, [], ◌∷◌, ◌++◌, ◌≡◌, ◌⊎◌, Option, none, some, Bool, true, false, min,
}
use pktauth.Base.{Run, done, panic, ok, err, take, length, All, if◌then◌else◌}
use pktauth.Base.Bytes.{AreBytes}
use pktauth.Net.{SocketAddr}
use pktauth.Auth.Cipher.{Aes128}
use pktauth.Auth.Verify.{Verdict}
use pktauth.Auth.Authenticator.{Authenticator, check}
use pktauth.Socket.Counters.{PacketSocket, ErrorKind, is_transient, would_block}
use pktauth.Socket.Recv.{Arrival, datagram, failed, Receiving, Ended, stopped, broken}
use pktauth.Socket.Recv.{count_received, count_rejected}
use pktauth.Socket.Recv.Delivered.{Packet, delivered}

-- Datagrams consist of bytes.
abbrev pub IsRaw : Arrival → Type 0
IsRaw (datagram payload from) = AreBytes payload
IsRaw (failed kind) = Unit {0}

abbrev pub final : Ended → Receiving
final (stopped s) = s
final (broken kind s) = s

-- Errors that end the loop without being reported.
abbrev pub is_soft : ErrorKind → Bool
is_soft would_block = true
is_soft kind = is_transient kind

-- Why the loop ended: the queue is empty, the buffers are full, or its last arrival is an error,
-- which is soft or behind a packet that was handed over; or a fatal error came before any packet.
pub data EndsWell (consumed rest : List Arrival) (ended : Ended) : Type 0 where
  drained : (s : Receiving) → ended ≡ stopped s → rest ≡ [] → EndsWell consumed rest ended
  full :
      (s : Receiving) → ended ≡ stopped s → s.filled ≡ length s.bufs → EndsWell consumed rest ended
  interrupted :
      (s : Receiving) (front : List Arrival) (kind : ErrorKind)
      → ended ≡ stopped s
      → consumed ≡ front ++ (failed kind ∷ [])
      → (is_soft kind ≡ true) ⊎ (0 < s.filled)
      → EndsWell consumed rest ended
  fatal :
      (s : Receiving) (front : List Arrival) (kind : ErrorKind)
      → ended ≡ broken kind s
      → consumed ≡ front ++ (failed kind ∷ [])
      → is_soft kind ≡ false
      → s.filled ≡ 0
      → EndsWell consumed rest ended

abbrev pub accepts : Run Verdict → Bool
accepts (done (ok _)) = true
accepts (done (err _)) = false
accepts panic = false

module _ (aes : Aes128) (authenticator : Option Authenticator) (size : ℕ) where
  -- Whether a packet passes the authenticator, if there is one.
  abbrev pub passes : Packet → Bool
  passes packet = elim authenticator [
    | none ↦ true
    | some a ↦ accepts (check aes a packet.bytes packet.from.ip)
  ]

  -- A datagram as a buffer of `size` bytes takes it.
  abbrev pub truncated : List ℕ → SocketAddr → Packet
  truncated payload from = record { bytes = take size payload; from = from }

  -- The packets to hand over: those that pass, in order.
  unfoldable pub keep : List Arrival → List Packet
  keep [] = []
  keep (datagram payload from ∷ queue) =
      if passes (truncated payload from) then truncated payload from ∷ keep queue else keep queue
  keep (failed kind ∷ queue) = keep queue

  -- One datagram in the counters.
  abbrev pub count_one : List ℕ → SocketAddr → PacketSocket → PacketSocket
  count_one payload from socket =
      let counted = count_received (min (length payload) size) socket in
      if passes (truncated payload from) then counted else count_rejected counted

  unfoldable pub tally : List Arrival → PacketSocket → PacketSocket
  tally [] socket = socket
  tally (datagram payload from ∷ queue) socket = tally queue (count_one payload from socket)
  tally (failed kind ∷ queue) socket = tally queue socket

  -- Buffers of `size` bytes, a description for each, and the socket's own authenticator.
  pub record Fits (s : Receiving) : Type 0 where
    pub capacities : All (λ buf. length buf ≡ size) s.bufs
    pub described : length s.bufs ≤ length s.meta
    pub within : s.filled ≤ length s.bufs
    pub own : s.socket.authenticator ≡ authenticator

  -- The loop took `consumed` off the queue, handed over what passes of it, and counted it.
  pub record Drains (queue : List Arrival) (s : Receiving) (ended : Ended) (rest : List Arrival)
      : Type 0 where
    pub consumed : List Arrival
    pub split : queue ≡ consumed ++ rest
    pub handed :
        delivered ((final ended).filled) ((final ended).bufs) ((final ended).meta)
        ≡ delivered s.filled s.bufs s.meta ++ keep consumed
    pub counted : (final ended).socket ≡ tally consumed s.socket
    pub fits : Fits (final ended)
    pub ends : EndsWell consumed rest ended
