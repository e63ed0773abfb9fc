-- ===== src/Socket/Send/Parts.antt =====
-- What one `try_send` puts on the wire.
use pktauth.Base.{ℕ, suc, ◌+◌, ◌%◌, ◌^◌, ◌<◌, List, [], ◌∷◌, ◌++◌, map, append-nil, append_assoc}
use pktauth.Base.{◌≢◌, ◌≡◌, ap, refl, sym, ◌∙◌, arith, none, some, Option-cases, inl, inr}
use pktauth.Base.{done, Result, ok, err, length, take, All}
use pktauth.Base.Chunks.{concat, chunks_parts, IsChunk}
use pktauth.Net.{SocketAddr}
use pktauth.Socket.Counters.{ErrorKind, would_block}
use pktauth.Socket.Send.Answers.{Taken, no_send, took, Meets, answered, at_end}
use pktauth.Base.{subst}
use pktauth.Socket.Send.{
  Transmit, Sending, count_sent, send_after, send_datagram, send_segments, try_send,
}

-- From `s` to `s'`, the first `k` of the parts went to the destination, in order, and were counted;
-- nothing else of the socket changed.
pub record Went (destination : SocketAddr) (parts : List (List ℕ)) (k : ℕ) (s s' : Sending)
    : Type 0 where
  pub wire : s'.wire ≡ s.wire ++ map (λ (d : List ℕ). (destination, d)) (take k parts)
  pub sent : s'.socket.counters.sent % 2 ^ 64 ≡ (s.socket.counters.sent + k) % 2 ^ 64
  pub received : s'.socket.counters.received ≡ s.socket.counters.received
  pub received_bytes : s'.socket.counters.received_bytes ≡ s.socket.counters.received_bytes
  pub rejected : s'.socket.counters.rejected ≡ s.socket.counters.rejected
  pub authenticator : s'.socket.authenticator ≡ s.socket.authenticator

-- The two ends of a loop over parts: all of them went, or an error that the system answered to one
-- cut it off there.
pub data Tried (destination : SocketAddr) (parts : List (List ℕ)) (s : Sending)
    : Result (Unit {0}) ErrorKind × Sending → Type 0 where
  all_sent :
      (s' : Sending)
      → Went destination parts (length parts) s s'
      → Taken (length parts) s.answers s'.answers
      → Tried destination parts s (ok tt, s')
  cut_off :
      (kind : ErrorKind) (k : ℕ) (s' : Sending) (met : List (Result ℕ ErrorKind))
      → k < length parts
      → Went destination parts k s s'
      → Taken k s.answers met
      → Meets kind met s'.answers
      → Tried destination parts s (err kind, s')

Went-none :
    (destination : SocketAddr) (parts : List (List ℕ)) (s : Sending)
    (answers : List (Result ℕ ErrorKind))
    → Went destination parts 0 s (record s { answers = answers })
Went-none destination parts s answers = record {
  wire = sym (append-nil s.wire);
  sent = omega arith;
  received = refl;
  received_bytes = refl;
  rejected = refl;
  authenticator = refl;
}

-- One more part in front.
sent_once : ℕ → SocketAddr → List ℕ → List (Result ℕ ErrorKind) → Sending → Sending
sent_once n destination datagram answers s = record s {
  socket = count_sent n s.socket;
  wire = s.wire ++ ((destination, datagram) ∷ []);
  answers = answers;
}

Went-suc :
    (n : ℕ) (destination : SocketAddr) (datagram : List ℕ) (rest : List (List ℕ)) (k : ℕ)
    (answers : List (Result ℕ ErrorKind)) (s s' : Sending)
    → Went destination rest k (sent_once n destination datagram answers s) s'
    → Went destination (datagram ∷ rest) (suc k) s s'
unfolding sent_once
Went-suc n destination datagram rest k answers s s' w = record {
  wire = w.wire ∙ append_assoc s.wire ((destination, datagram) ∷ []) _;
  sent = omega (arith, w.sent);
  received = w.received;
  received_bytes = w.received_bytes;
  rejected = w.rejected;
  authenticator = w.authenticator;
}

Tried-suc :
    (n : ℕ) (destination : SocketAddr) (datagram : List ℕ) (rest : List (List ℕ))
    (answers : List (Result ℕ ErrorKind)) (s : Sending)
    {end : Result (Unit {0}) ErrorKind × Sending}
    → s.answers ≡ ok n ∷ answers
    → Tried destination rest (sent_once n destination datagram answers s) end
    → Tried destination (datagram ∷ rest) s end
unfolding sent_once
Tried-suc n destination datagram rest answers s e (all_sent s' w t) =
    all_sent s' (Went-suc n destination datagram rest (length rest) answers s s' w)
      (subst (λ l. Taken (suc (length rest)) l s'.answers) (sym e) (took n t))
Tried-suc n destination datagram rest answers s e (cut_off kind k s' met h w t m) =
    cut_off kind (suc k) s' met (omega arith)
      (Went-suc n destination datagram rest k answers s s' w)
      (subst (λ l. Taken (suc k) l met) (sym e) (took n t)) m

-- The system has no answer left, or an error.
none_left :
    (destination : SocketAddr) (datagram : List ℕ) (rest : List (List ℕ)) (s : Sending)
    → s.answers ≡ []
    → Tried destination (datagram ∷ rest) s (err would_block, s)
none_left destination datagram rest s e =
    cut_off would_block 0 s s.answers (omega arith) (Went-none destination _ s s.answers)
      (no_send s.answers) (subst (λ l. Meets would_block l l) (sym e) (at_end refl))

met_error :
    (destination : SocketAddr) (datagram : List ℕ) (rest : List (List ℕ)) (s : Sending)
    (kind : ErrorKind) (answers : List (Result ℕ ErrorKind))
    → s.answers ≡ err kind ∷ answers
    → Tried destination (datagram ∷ rest) s (err kind, record s { answers = answers })
met_error destination datagram rest s kind answers e =
    cut_off kind 0 _ s.answers (omega arith) (Went-none destination _ s answers) (no_send s.answers)
      (subst (λ l. Meets kind l answers) (sym e) (answered answers))

-- One datagram, by what the system answers.
send_after-Tried :
    (destination : SocketAddr) (datagram : List ℕ) (s : Sending)
    (answers : List (Result ℕ ErrorKind))
    → s.answers ≡ answers
    → Tried destination (datagram ∷ []) s (send_after answers destination datagram s)
unfolding send_after sent_once
send_after-Tried destination datagram s [] e = none_left destination datagram [] s e
send_after-Tried destination datagram s (err kind ∷ answers) e =
    met_error destination datagram [] s kind answers e
send_after-Tried destination datagram s (ok n ∷ answers) e =
    let s' = sent_once n destination datagram answers s in
    Tried-suc n destination datagram [] answers s e
      (all_sent s' (Went-none destination [] s' answers) (no_send answers))

-- One datagram and then the rest.
then_rest :
    (destination : SocketAddr) (datagram : List ℕ) (rest : List (List ℕ)) (s : Sending)
    → ((s' : Sending) → Tried destination rest s' (send_segments destination rest s'))
    → (answers : List (Result ℕ ErrorKind)) → s.answers ≡ answers
    → Tried destination (datagram ∷ rest) s (
        let (answer, s') = send_after answers destination datagram s in
        elim answer [ err kind ↦ (err kind, s') | ok _ ↦ send_segments destination rest s' ])
unfolding send_after sent_once
then_rest destination datagram rest s ih [] e = none_left destination datagram rest s e
then_rest destination datagram rest s ih (err kind ∷ answers) e =
    met_error destination datagram rest s kind answers e
then_rest destination datagram rest s ih (ok n ∷ answers) e =
    Tried-suc n destination datagram rest answers s e
      (ih (sent_once n destination datagram answers s))

send_segments-Tried :
    (destination : SocketAddr) (parts : List (List ℕ)) (s : Sending)
    → Tried destination parts s (send_segments destination parts s)
unfolding send_segments send_datagram
send_segments-Tried destination [] s =
    all_sent s (Went-none destination [] s s.answers) (no_send s.answers)
send_segments-Tried destination (datagram ∷ rest) s =
    then_rest destination datagram rest s (send_segments-Tried destination rest) s.answers refl

-- The parts of a transmit: its contents in one, or cut to its segment size.
pub data IsParts (transmit : Transmit) : List (List ℕ) → Type 0 where
  single : transmit.segment_size ≡ none → IsParts transmit (transmit.contents ∷ [])
  cut :
      (size : ℕ) (parts : List (List ℕ))
      → transmit.segment_size ≡ some size
      → concat parts ≡ transmit.contents
      → All (IsChunk size) parts
      → IsParts transmit parts

-- Each call of `try_send` works on the same parts.
pub try_send-IsParts :
    (transmit : Transmit)
    → transmit.segment_size ≢ some 0
    → (parts : List (List ℕ)) × IsParts transmit parts
      × ((s : Sending)
          → (tried : Result (Unit {0}) ErrorKind × Sending) × (try_send transmit s ≡ done tried)
            × Tried transmit.destination parts s tried)
unfolding try_send send_datagram
try_send-IsParts transmit sendable = elim (Option-cases transmit.segment_size) [
  | inl unset ↦ (
    transmit.contents ∷ [],
    single unset,
    λ s. (
      send_datagram transmit.destination transmit.contents s,
      rw (try_send, unset) refl,
      send_after-Tried transmit.destination transmit.contents s s.answers refl,
    ),
  )
  | inr set ↦
      let (size, e) = set in
      let positive : 0 < size =
        omega (arith, λ (zero_size : size ≡ 0). sendable (e ∙ ap some zero_size)) in
      let (parts, split, whole, chunked) = chunks_parts size transmit.contents positive in
      (
        parts,
        cut size parts e whole chunked,
        λ s. (
          send_segments transmit.destination parts s,
          rw (try_send, e, split) refl,
          send_segments-Tried transmit.destination parts s,
        ),
      )
]

-- `try_send` never panics where the segment size, if there is one, is not zero. Its parts are the
-- contents where no segment size is set, and otherwise runs of at most that size which give the
-- contents again; a front of them goes to the destination in order and is counted, all of them
-- where the answer is `Ok`, and less where it is an error.
try_send-Tried :
    (transmit : Transmit) (s : Sending)
    → transmit.segment_size ≢ some 0
    → (parts : List (List ℕ)) × (tried : Result (Unit {0}) ErrorKind × Sending) × IsParts transmit
        parts
      × (try_send transmit s ≡ done tried)
      × Tried transmit.destination parts s tried
try_send-Tried transmit s sendable =
    let (parts, is, tries) = try_send-IsParts transmit sendable in
    let (tried, e, end) = tries s in (parts, tried, is, e, end)
