-- ===== src/Socket/Send/Attempts.antt =====
-- `poll_send` on any transmit: what each of its attempts puts on the wire.
use pktauth.Base.{suc}
use pktauth.Base.{ℕ, ◌+◌, ◌%◌, ◌^◌, ◌<◌, List, [], ◌∷◌, ◌++◌, map, append_assoc, append-nil, sum}
use pktauth.Base.{◌≡◌, ◌≢◌, refl, sym, ap, ◌∙◌, arith, some, true, false}
use pktauth.Base.{Run, done, Result, ok, err, All, length, take}
use pktauth.Net.{SocketAddr}
use pktauth.Socket.Counters.{ErrorKind, would_block, connection_refused, connection_reset}
use pktauth.Socket.Counters.{host_unreachable, network_unreachable, other, Poll, ready, pending}
use pktauth.Socket.Send.{Transmit, Sending, PacketSender, try_send, poll_send}
use pktauth.Socket.Send.Answers.{
  Readiness, Taken, Meets, Blocked, no_attempt, attempt, WritableFor, IsPending, ran_out, not_yet,
}
use pktauth.Socket.Send.Parts.{Went, Tried, all_sent, cut_off, IsParts, try_send-IsParts}

-- The datagrams of attempts that sent so many of the parts each, first to last.
abbrev pub emitted : SocketAddr → List (List ℕ) → List ℕ → List (SocketAddr × List ℕ)
emitted destination parts [] = []
emitted destination parts (k ∷ ks) =
    map (λ (d : List ℕ). (destination, d)) (take k parts) ++ emitted destination parts ks

-- From `s` to `s'`, attempts sent and counted the first parts, so many each, and nothing else of
-- the socket changed.
pub record Outgoing (destination : SocketAddr) (parts : List (List ℕ)) (ks : List ℕ)
    (s s' : Sending) : Type 0 where
  pub wire : s'.wire ≡ s.wire ++ emitted destination parts ks
  pub sent : s'.socket.counters.sent % 2 ^ 64 ≡ (s.socket.counters.sent + sum ks) % 2 ^ 64
  pub received : s'.socket.counters.received ≡ s.socket.counters.received
  pub received_bytes : s'.socket.counters.received_bytes ≡ s.socket.counters.received_bytes
  pub rejected : s'.socket.counters.rejected ≡ s.socket.counters.rejected
  pub authenticator : s'.socket.authenticator ≡ s.socket.authenticator

-- Attempts that found no more room before one of the parts.
abbrev pub AreBlocked : List (List ℕ) → List ℕ → Type 0
AreBlocked parts ks = All (λ k. k < length parts) ks

-- The ends of `poll_send`, after attempts for each of which the socket was reported writable and
-- which then found no room: an attempt was taken whole; the system answered another error to one,
-- which gave up; readiness is pending; or waiting for it failed.
pub data Attempted (destination : SocketAddr) (parts : List (List ℕ)) (readiness : Readiness)
    (s : Sending) : Poll (Result (Unit {0}) ErrorKind) × PacketSender → Type 0 where
  completed :
      (ks : List ℕ) (s' : Sending) (blocked : List (Result ℕ ErrorKind)) (later : Readiness)
      → AreBlocked parts ks
      → Blocked ks s.answers blocked
      → Taken (length parts) blocked s'.answers
      → WritableFor (suc (length ks)) readiness later
      → Outgoing destination parts (ks ++ (length parts ∷ [])) s s'
      → Attempted destination parts readiness s
          (ready (ok tt), record { sending = s'; writable = false })
  given_up :
      (ks : List ℕ) (k : ℕ) (kind : ErrorKind) (s' : Sending)
      (blocked met : List (Result ℕ ErrorKind)) (later : Readiness)
      → AreBlocked parts ks
      → k < length parts
      → kind ≢ would_block
      → Blocked ks s.answers blocked
      → Taken k blocked met
      → Meets kind met s'.answers
      → WritableFor (suc (length ks)) readiness later
      → Outgoing destination parts (ks ++ (k ∷ [])) s s'
      → Attempted destination parts readiness s
          (ready (ok tt), record { sending = s'; writable = false })
  waiting :
      (ks : List ℕ) (s' : Sending) (later : Readiness)
      → AreBlocked parts ks
      → Blocked ks s.answers s'.answers
      → WritableFor (length ks) readiness later
      → IsPending later
      → Outgoing destination parts ks s s'
      → Attempted destination parts readiness s (pending, record { sending = s'; writable = true })
  unready :
      (ks : List ℕ) (kind : ErrorKind) (s' : Sending) (later : Readiness)
      → AreBlocked parts ks
      → Blocked ks s.answers s'.answers
      → WritableFor (length ks) readiness (ready (err kind) ∷ later)
      → Outgoing destination parts ks s s'
      → Attempted destination parts readiness s
          (ready (err kind), record { sending = s'; writable = false })

module _ (destination : SocketAddr) (parts : List (List ℕ)) where
  Outgoing-none : (s : Sending) → Outgoing destination parts [] s s
  Outgoing-none s = record {
    wire = sym (append-nil s.wire);
    sent = omega arith;
    received = refl;
    received_bytes = refl;
    rejected = refl;
    authenticator = refl;
  }

  Outgoing-cons :
      (k : ℕ) (ks : List ℕ) (s t u : Sending)
      → Went destination parts k s t
      → Outgoing destination parts ks t u
      → Outgoing destination parts (k ∷ ks) s u
  Outgoing-cons k ks s t u w o = record {
    wire =
        o.wire
        ∙ ap (λ front. front ++ emitted destination parts ks) w.wire
        ∙ append_assoc s.wire _ _;
    sent = omega (arith, o.sent, w.sent);
    received = o.received ∙ w.received;
    received_bytes = o.received_bytes ∙ w.received_bytes;
    rejected = o.rejected ∙ w.rejected;
    authenticator = o.authenticator ∙ w.authenticator;
  }

  module _ (readiness : Readiness) where
    -- One attempt that found no room in front.
    Attempted-cons :
        (k : ℕ) (s t : Sending) (met : List (Result ℕ ErrorKind))
        {end : Poll (Result (Unit {0}) ErrorKind) × PacketSender}
        → k < length parts
        → Went destination parts k s t
        → Taken k s.answers met
        → Meets would_block met t.answers
        → Attempted destination parts readiness t end
        → Attempted destination parts (ready (ok tt) ∷ readiness) s end
    Attempted-cons k s t met h w n m (completed ks s' blocked later bs b all r o) =
        completed (k ∷ ks) s' blocked later (h, bs) (attempt k n m b) all
          (ap (λ x. ready (ok tt) ∷ x) r) (Outgoing-cons k _ s t s' w o)
    Attempted-cons k s t met h w n m
          (given_up ks k' kind s' blocked met' later bs h' other_kind b n' m' r o) =
        given_up (k ∷ ks) k' kind s' blocked met' later (h, bs) h' other_kind (attempt k n m b) n'
          m' (ap (λ x. ready (ok tt) ∷ x) r) (Outgoing-cons k _ s t s' w o)
    Attempted-cons k s t met h w n m (waiting ks s' later bs b r is o) =
        waiting (k ∷ ks) s' later (h, bs) (attempt k n m b) (ap (λ x. ready (ok tt) ∷ x) r) is
          (Outgoing-cons k _ s t s' w o)
    Attempted-cons k s t met h w n m (unready ks kind s' later bs b r o) =
        unready (k ∷ ks) kind s' later (h, bs) (attempt k n m b) (ap (λ x. ready (ok tt) ∷ x) r)
          (Outgoing-cons k _ s t s' w o)

    -- An attempt that met an error other than a lack of room.
    gives_up :
        (k : ℕ) (kind : ErrorKind) (s s' : Sending) (met : List (Result ℕ ErrorKind))
        → k < length parts
        → kind ≢ would_block
        → Went destination parts k s s'
        → Taken k s.answers met
        → Meets kind met s'.answers
        → Attempted destination parts
            (ready (ok tt) ∷ readiness)
            s
            (ready (ok tt), record { sending = s'; writable = false })
    gives_up k kind s s' met h other_kind w n m =
        given_up [] k kind s' s.answers met readiness tt h other_kind (no_attempt _) n m refl
          (Outgoing-cons k [] s s' s' w (Outgoing-none s'))

abbrev Attempts :
    SocketAddr
    → List (List ℕ)
    → Readiness
    → Sending
    → Run (Poll (Result (Unit {0}) ErrorKind) × PacketSender)
    → Type 0
Attempts destination parts readiness s run =
    (end : Poll (Result (Unit {0}) ErrorKind) × PacketSender) × (run ≡ done end)
    × Attempted destination parts readiness s end

module _ (transmit : Transmit) (parts : List (List ℕ)) where
  abbrev to : SocketAddr
  to = transmit.destination

  after_tried :
      List (Poll (Result (Unit {0}) ErrorKind))
      → Result (Unit {0}) ErrorKind × Sending
      → Run (Poll (Result (Unit {0}) ErrorKind) × PacketSender)
  after_tried readiness tried = elim tried.0 [
    | ok _ ↦ done (ready (ok tt), record { sending = tried.1; writable = false })
    | err would_block ↦
        poll_send readiness transmit (record { sending = tried.1; writable = false })
    | err _ ↦ done (ready (ok tt), record { sending = tried.1; writable = false })
  ]

  after_tried-Attempts :
      (readiness : List (Poll (Result (Unit {0}) ErrorKind))) (s : Sending)
      (tried : Result (Unit {0}) ErrorKind × Sending)
      → Tried to parts s tried
      → ((t : Sending)
          → Attempts to parts readiness t
              (poll_send readiness transmit (record { sending = t; writable = false })))
      → Attempts to parts (ready (ok tt) ∷ readiness) s (after_tried readiness tried)
  unfolding after_tried
  after_tried-Attempts readiness s tried (all_sent s' w n) ih = (
    _,
    refl,
    completed [] s' s.answers readiness tt (no_attempt _) n refl
        (Outgoing-cons to parts (length parts) [] s s' s' w (Outgoing-none to parts s')),
  )
  after_tried-Attempts readiness s tried (cut_off would_block k s' met h w n m) ih =
      let (end, e, rest) = ih s' in
      (end, e, Attempted-cons to parts readiness k s s' met h w n m rest)
  after_tried-Attempts readiness s tried (cut_off connection_refused k s' met h w n m) ih =
      (_, refl, gives_up to parts readiness k connection_refused s s' met h (λ e. cc) w n m)
  after_tried-Attempts readiness s tried (cut_off connection_reset k s' met h w n m) ih =
      (_, refl, gives_up to parts readiness k connection_reset s s' met h (λ e. cc) w n m)
  after_tried-Attempts readiness s tried (cut_off host_unreachable k s' met h w n m) ih =
      (_, refl, gives_up to parts readiness k host_unreachable s s' met h (λ e. cc) w n m)
  after_tried-Attempts readiness s tried (cut_off network_unreachable k s' met h w n m) ih =
      (_, refl, gives_up to parts readiness k network_unreachable s s' met h (λ e. cc) w n m)
  after_tried-Attempts readiness s tried (cut_off other k s' met h w n m) ih =
      (_, refl, gives_up to parts readiness k other s s' met h (λ e. cc) w n m)

  attempts :
      (readiness : List (Poll (Result (Unit {0}) ErrorKind))) (sender : PacketSender)
      → ((s : Sending)
          → (tried : Result (Unit {0}) ErrorKind × Sending) × (try_send transmit s ≡ done tried)
            × Tried to parts s tried)
      → Attempts to parts readiness sender.sending (poll_send readiness transmit sender)
  unfolding poll_send after_tried
  attempts [] sender tries = (
    _,
    refl,
    waiting [] sender.sending [] tt (no_attempt _) refl ran_out
        (Outgoing-none to parts sender.sending),
  )
  attempts (pending ∷ readiness) sender tries = (
    _,
    refl,
    waiting [] sender.sending (pending ∷ readiness) tt (no_attempt _) refl (not_yet readiness)
        (Outgoing-none to parts sender.sending),
  )
  attempts (ready (err kind) ∷ readiness) sender tries = (
    _,
    refl,
    unready [] kind sender.sending readiness tt (no_attempt _) refl
        (Outgoing-none to parts sender.sending),
  )
  attempts (ready (ok _) ∷ readiness) sender tries =
      let (tried, e, end) = tries sender.sending in
      let (final, runs, attempted) =
        after_tried-Attempts readiness sender.sending tried end
          (λ t. attempts readiness (record { sending = t; writable = false }) tries) in
      (final, rw e runs, attempted)

-- `poll_send` never panics where the segment size, if there is one, is not zero. It makes one attempt
-- for each report that the socket is writable. Each attempt sends a front of the same parts, in order,
-- as far as the system takes them, and starts with the first of them again: an attempt to which the
-- system answers that there is no room is followed by another after the next report; one that sends
-- every part, or that is answered another error, ends the call with `Ok`. Where readiness is pending
-- the call waits, and a failure to wait is reported as it is.
pub poll_send-Attempted :
    (readiness : List (Poll (Result (Unit {0}) ErrorKind))) (transmit : Transmit)
    (sender : PacketSender)
    → transmit.segment_size ≢ some 0
    → (parts : List (List ℕ)) × (end : Poll (Result (Unit {0}) ErrorKind) × PacketSender) × IsParts
        transmit parts
      × (poll_send readiness transmit sender ≡ done end)
      × Attempted transmit.destination parts readiness sender.sending end
poll_send-Attempted readiness transmit sender sendable =
    let (parts, is, tries) = try_send-IsParts transmit sendable in
    let (end, runs, attempted) = attempts transmit parts readiness sender tries in
    (parts, end, is, runs, attempted)
