-- ===== src/Socket/Send/PollSend.antt =====
-- `poll_send` on a transmit of as many segments as `max_transmit_segments` allows.
use pktauth.Base.{◌+◌, ◌%◌, ◌^◌}
use pktauth.Base.{ℕ, suc, List, [], ◌∷◌, ◌++◌, replicate, none, true, false}
use pktauth.Base.{◌≡◌, ◌≢◌, refl, ap}
use pktauth.Base.{Run, done, Result, ok, err}
use pktauth.Socket.Counters.{ErrorKind, would_block, connection_refused, connection_reset}
use pktauth.Socket.Counters.{host_unreachable, network_unreachable, other, Poll, ready, pending}
use pktauth.Socket.Send.{
  Transmit, Sending, PacketSender, send_after, send_datagram, try_send, poll_send,
}
use pktauth.Socket.Send.{max_transmit_segments, send_segments}
use pktauth.Base.{◌*◌, ◌<◌, ◌≤◌, some, length, arith}
use pktauth.Socket.Send.Answers.{
  Readiness, no_send, Meets, answered, at_end, Blocked, no_attempt, attempt, WritableFor, IsPending,
  ran_out, not_yet,
}
use pktauth.Base.Chunks.{chunks_whole}
use pktauth.Net.{SocketAddr}

-- The state after one datagram of which the system took `n` bytes: it is on the wire and counted.
abbrev pub with_sent : Transmit → ℕ → Sending → Sending
with_sent transmit n s = record s {
  socket = record (s.socket) {
    counters = record (s.socket.counters) {
      sent = (s.socket.counters.sent + 1) % 2 ^ 64;
      sent_bytes = (s.socket.counters.sent_bytes + n) % 2 ^ 64;
    };
  };
  wire = s.wire ++ ((transmit.destination, transmit.contents) ∷ []);
}

-- The ends of `poll_send`, after `tries` attempts that found no room, each of which had been told
-- that the socket is writable: the datagram went out once at the next attempt; it was dropped for
-- another error that the system answered to that; readiness is pending; or waiting for it failed.
pub data Sent (transmit : Transmit) (readiness : Readiness) (s : Sending)
    : Poll (Result (Unit {0}) ErrorKind) × PacketSender → Type 0 where
  delivered :
      (tries n : ℕ) (answers : List (Result ℕ ErrorKind)) (later : Readiness)
      → Blocked (replicate tries 0) s.answers (ok n ∷ answers)
      → WritableFor (suc tries) readiness later
      → Sent transmit readiness s (
        ready (ok tt),
        record {
          sending = record (with_sent transmit n s) { answers = answers };
          writable = false;
        },
      )
  dropped :
      (tries : ℕ) (kind : ErrorKind) (answers : List (Result ℕ ErrorKind)) (later : Readiness)
      → kind ≢ would_block
      → Blocked (replicate tries 0) s.answers (err kind ∷ answers)
      → WritableFor (suc tries) readiness later
      → Sent transmit readiness s
          (ready (ok tt), record { sending = record s { answers = answers }; writable = false })
  waiting :
      (tries : ℕ) (answers : List (Result ℕ ErrorKind)) (later : Readiness)
      → Blocked (replicate tries 0) s.answers answers
      → WritableFor tries readiness later
      → IsPending later
      → Sent transmit readiness s
          (pending, record { sending = record s { answers = answers }; writable = true })
  unready :
      (tries : ℕ) (kind : ErrorKind) (answers : List (Result ℕ ErrorKind)) (later : Readiness)
      → Blocked (replicate tries 0) s.answers answers
      → WritableFor tries readiness (ready (err kind) ∷ later)
      → Sent transmit readiness s
          (ready (err kind), record { sending = record s { answers = answers }; writable = false })

abbrev Polls :
    Transmit
    → Readiness
    → Sending
    → Run (Poll (Result (Unit {0}) ErrorKind) × PacketSender)
    → Type 0
Polls transmit readiness s run =
    (end : Poll (Result (Unit {0}) ErrorKind) × PacketSender) × (run ≡ done end)
    × Sent transmit readiness s end

-- One more attempt in front that found no room.
Sent-suc :
    (transmit : Transmit) (readiness : Readiness) (s : Sending)
    {answers next : List (Result ℕ ErrorKind)}
    {end : Poll (Result (Unit {0}) ErrorKind) × PacketSender}
    → Meets would_block answers next
    → Sent transmit readiness (record s { answers = next }) end
    → Sent transmit (ready (ok tt) ∷ readiness) (record s { answers = answers }) end
Sent-suc transmit readiness s m (delivered tries n rest later b w) =
    delivered (suc tries) n rest later (attempt 0 (no_send _) m b) (ap (λ t. ready (ok tt) ∷ t) w)
Sent-suc transmit readiness s m (dropped tries kind rest later other_kind b w) =
    dropped (suc tries) kind rest later other_kind (attempt 0 (no_send _) m b)
      (ap (λ t. ready (ok tt) ∷ t) w)
Sent-suc transmit readiness s m (waiting tries rest later b w is) =
    waiting (suc tries) rest later (attempt 0 (no_send _) m b) (ap (λ t. ready (ok tt) ∷ t) w) is
Sent-suc transmit readiness s m (unready tries kind rest later b w) =
    unready (suc tries) kind rest later (attempt 0 (no_send _) m b) (ap (λ t. ready (ok tt) ∷ t) w)

-- One round of the loop, by what the system answers to the send.
module _ (transmit : Transmit) (readiness : List (Poll (Result (Unit {0}) ErrorKind)))
    (s : Sending) where
  after_send :
      Result (Unit {0}) ErrorKind × Sending
      → Run (Poll (Result (Unit {0}) ErrorKind) × PacketSender)
  after_send tried = elim tried.0 [
    | ok _ ↦ done (ready (ok tt), record { sending = tried.1; writable = false })
    | err would_block ↦
        poll_send readiness transmit (record { sending = tried.1; writable = false })
    | err _ ↦ done (ready (ok tt), record { sending = tried.1; writable = false })
  ]

  refused :
      (kind : ErrorKind) (answers : List (Result ℕ ErrorKind))
      → kind ≢ would_block
      → Sent transmit
          (ready (ok tt) ∷ readiness)
          (record s { answers = err kind ∷ answers })
          (ready (ok tt), record { sending = record s { answers = answers }; writable = false })
  refused kind answers other_kind = dropped 0 kind answers readiness other_kind (no_attempt _) refl

  after_send-Polls :
      (answers : List (Result ℕ ErrorKind))
      → ((s' : Sending)
          → Polls transmit readiness s'
              (poll_send readiness transmit (record { sending = s'; writable = false })))
      → Polls transmit
          (ready (ok tt) ∷ readiness)
          (record s { answers = answers })
          (after_send (
            send_after answers transmit.destination transmit.contents
              (record s { answers = answers })))
  unfolding after_send send_after
  after_send-Polls [] ih =
      let (end, e, sent) = ih (record s { answers = [] }) in
      (end, e, Sent-suc transmit readiness s (at_end refl) sent)
  after_send-Polls (ok n ∷ answers) ih =
      (_, refl, delivered 0 n answers readiness (no_attempt _) refl)
  after_send-Polls (err would_block ∷ answers) ih =
      let (end, e, sent) = ih (record s { answers = answers }) in
      (end, e, Sent-suc transmit readiness s (answered answers) sent)
  after_send-Polls (err connection_refused ∷ answers) ih =
      (_, refl, refused connection_refused answers (λ e. cc))
  after_send-Polls (err connection_reset ∷ answers) ih =
      (_, refl, refused connection_reset answers (λ e. cc))
  after_send-Polls (err host_unreachable ∷ answers) ih =
      (_, refl, refused host_unreachable answers (λ e. cc))
  after_send-Polls (err network_unreachable ∷ answers) ih =
      (_, refl, refused network_unreachable answers (λ e. cc))
  after_send-Polls (err other ∷ answers) ih = (_, refl, refused other answers (λ e. cc))

-- A transmit of at most as many segments as `max_transmit_segments` allows.
pub data IsWithin (transmit : Transmit) : Type 0 where
  unset : transmit.segment_size ≡ none → IsWithin transmit
  segmented :
      (size : ℕ)
      → transmit.segment_size ≡ some size
      → 0 < length transmit.contents
      → length transmit.contents ≤ max_transmit_segments * size
      → IsWithin transmit

send_segments-single :
    (destination : SocketAddr) (contents : List ℕ) (s : Sending)
    → send_segments destination (contents ∷ []) s ≡ send_datagram destination contents s
unfolding send_segments send_datagram send_after
send_segments-single destination contents s = answered s.answers
  where
    answered :
        (answers : List (Result ℕ ErrorKind))
        → (let (answer, s') = send_after answers destination contents s in
            elim answer [ err kind ↦ (err kind, s') | ok _ ↦ (ok tt, s') ])
          ≡ send_after answers destination contents s
    answered [] = refl
    answered (err kind ∷ answers) = refl
    answered (ok n ∷ answers) = refl

try_send-single :
    (transmit : Transmit) (s : Sending)
    → IsWithin transmit
    → try_send transmit s ≡ done (send_datagram transmit.destination transmit.contents s)
unfolding try_send
try_send-single transmit s (unset e) = rw e refl
try_send-single transmit s (segmented size e some_byte short) =
    rw
      (
        e,
        chunks_whole size transmit.contents some_byte (omega (arith, short)),
        send_segments-single transmit.destination transmit.contents s,
      )
      refl

-- `poll_send` of a transmit of at most `max_transmit_segments` segments, and not an empty one where
-- a segment size is set, never panics. It tries the datagram once for each report that the socket is
-- writable: where the system has no room it waits for the next report, and sends the datagram at most
-- once. An answer of `Ok` is counted and reported; any other error that the system answers drops the
-- datagram and is reported as `Ok`; where readiness is pending it waits, with its writable future
-- kept; and a failure of that future is reported as it is.
pub poll_send-Sent :
    (readiness : List (Poll (Result (Unit {0}) ErrorKind))) (transmit : Transmit)
    (sender : PacketSender)
    → IsWithin transmit
    → (end : Poll (Result (Unit {0}) ErrorKind) × PacketSender) × (poll_send readiness transmit
          sender
        ≡ done end)
      × Sent transmit readiness sender.sending end
unfolding poll_send after_send send_datagram
poll_send-Sent [] transmit sender within =
    (_, refl, waiting 0 sender.sending.answers [] (no_attempt _) refl ran_out)
poll_send-Sent (pending ∷ readiness) transmit sender within = (
  _,
  refl,
  waiting 0 sender.sending.answers (pending ∷ readiness) (no_attempt _) refl (not_yet readiness),
)
poll_send-Sent (ready (err kind) ∷ readiness) transmit sender within =
    (_, refl, unready 0 kind sender.sending.answers readiness (no_attempt _) refl)
poll_send-Sent (ready (ok _) ∷ readiness) transmit sender within =
    let (end, e, sent) =
      after_send-Polls transmit readiness sender.sending sender.sending.answers (λ s'.
        poll_send-Sent readiness transmit (record { sending = s'; writable = false }) within) in
    (end, rw (try_send-single transmit sender.sending within) e, sent)
