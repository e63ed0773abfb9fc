-- ===== src/Socket/Recv/Calls/Progress.antt =====
-- A call on a readable socket takes at least one arrival.
use pktauth.Base.{ℕ, ◌-◌, ◌<◌, ◌≤◌, List, [], ◌∷◌, ◌≡◌, refl, sym, ap, ◌∙◌, none, some, arith}
use pktauth.Base.{
  Run, done, panic, ◌>>=◌, ok, err, length, get_elem?, Option-cases, Bool-cases, inl, inr, ltb,
}
use pktauth.Base.Slots.{get_elem?-lt}
use pktauth.Auth.Cipher.{Aes128}
use pktauth.Socket.Counters.{PacketSocket, ready, pending}
use pktauth.Socket.Recv.{
  Arrival, Receiving, RecvMeta, Round, go_on, stop, fail, Ended, stopped, broken, Polled,
  receive_one, recv_loop, poll_loop, poll_recv,
}
use pktauth.Socket.Recv.PollRecv.{Readiness, poll-broken, poll-filled, poll-again}
use pktauth.Socket.Recv.Calls.{ready_first}

module _ (aes : Aes128) where
  -- How the inner loop goes on after a round.
  after_round : Run Round → List Arrival → Run (Ended × List Arrival)
  after_round r queue = r >>= λ round. elim round [
    | go_on s ↦ recv_loop aes queue s
    | stop s ↦ done (stopped s, queue)
    | fail kind s ↦ done (broken kind s, queue)
  ]

  after_round-shorter :
      (r : Run Round) (queue rest : List Arrival) (ended : Ended)
      → ((s : Receiving) (ended : Ended)
          → recv_loop aes queue s ≡ done (ended, rest)
          → length rest ≤ length queue)
      → after_round r queue ≡ done (ended, rest)
      → length rest ≤ length queue
  unfolding after_round
  after_round-shorter (done (go_on s)) queue rest ended h e = h s ended e
  after_round-shorter (done (stop s)) queue rest ended h e =
      let same : queue ≡ rest = cc in rw same (omega arith)
  after_round-shorter (done (fail kind s)) queue rest ended h e =
      let same : queue ≡ rest = cc in rw same (omega arith)
  after_round-shorter panic queue rest ended h e = cc

  recv_loop-room :
      (arrival : Arrival) (queue : List Arrival) (s : Receiving) {buf : List ℕ}
      → get_elem? s.bufs s.filled ≡ some buf
      → recv_loop aes (arrival ∷ queue) s ≡ after_round (receive_one aes s buf arrival) queue
  unfolding recv_loop after_round
  recv_loop-room arrival queue s found = rw (recv_loop, found) refl

  recv_loop-no_room :
      (arrival : Arrival) (queue : List Arrival) (s : Receiving)
      → get_elem? s.bufs s.filled ≡ none
      → recv_loop aes (arrival ∷ queue) s ≡ done (stopped s, arrival ∷ queue)
  unfolding recv_loop
  recv_loop-no_room arrival queue s nothing = rw (recv_loop, nothing) refl

  recv_loop-shorter :
      (queue rest : List Arrival) (s : Receiving) (ended : Ended)
      → recv_loop aes queue s ≡ done (ended, rest)
      → length rest ≤ length queue
  recv_loop-shorter [] rest s ended e =
      let ends : recv_loop aes [] s ≡ done (stopped s, []) = unfold recv_loop in refl in
      let same : rest ≡ [] = cc in rw same (omega arith)
  recv_loop-shorter (arrival ∷ queue) rest s ended e =
      elim (Option-cases (get_elem? s.bufs s.filled)) [
        | inl nothing ↦
            let ends = recv_loop-no_room arrival queue s nothing in
            let same : rest ≡ arrival ∷ queue = cc in rw same (omega arith)
        | inr (buf, found) ↦
            let fewer : length rest ≤ length queue =
              after_round-shorter (receive_one aes s buf arrival) queue rest ended
                (λ s' ended' e'. recv_loop-shorter queue rest s' ended' e')
                (sym (recv_loop-room arrival queue s found) ∙ e) in
            omega arith
      ]

  -- With a buffer to fill the loop takes an arrival.
  recv_loop-takes :
      (queue rest : List Arrival) (s : Receiving) (ended : Ended)
      → 0 < length s.bufs
      → recv_loop aes queue (record s { filled = 0 }) ≡ done (ended, rest)
      → length rest ≤ length queue - 1
  recv_loop-takes [] rest s ended some_buf e =
      recv_loop-shorter [] rest (record s { filled = 0 }) ended e
  recv_loop-takes (arrival ∷ queue) rest s ended some_buf e =
      let (buf, found) = get_elem?-lt s.bufs 0 some_buf in
      let emptied : Receiving = record s { filled = 0 } in
      let fewer : length rest ≤ length queue =
        after_round-shorter (receive_one aes emptied buf arrival) queue rest ended
          (λ s' ended' e'. recv_loop-shorter queue rest s' ended' e')
          (sym (recv_loop-room arrival queue emptied found) ∙ e) in
      omega arith

  abbrev queue_of : Run Polled → List Arrival
  queue_of (done p) = p.queue
  queue_of panic = []

  -- A call that returns has returned from its first drain.
  drained_of :
      (u : Unit {0}) (readiness : Readiness) (queue : List Arrival) (s : Receiving) (p : Polled)
      → poll_loop aes (ready (ok u) ∷ readiness) queue s ≡ done p
      → (ended : Ended) × (rest : List Arrival) × (recv_loop aes queue (record s { filled = 0 })
          ≡ done (ended, rest))
  unfolding poll_loop
  drained_of u readiness queue s p e =
      from_drain (recv_loop aes queue (record s { filled = 0 })) refl
    where
      from_drain :
          (r : Run (Ended × List Arrival))
          → recv_loop aes queue (record s { filled = 0 }) ≡ r
          → (ended : Ended) × (rest : List Arrival) × (recv_loop aes queue (record s { filled = 0 })
              ≡ done (ended, rest))
      from_drain (done (ended, rest)) drains = (ended, rest, drains)
      from_drain panic panics =
          let panicked : poll_loop aes (ready (ok u) ∷ readiness) queue s ≡ panic =
            rw (poll_loop, panics) refl in
          cc

  -- What follows a drained round takes no arrival back.
  after_drained :
      (u : Unit {0}) (readiness : Readiness) (queue rest : List Arrival) (s : Receiving)
      (ended : Ended) (p : Polled)
      → recv_loop aes queue (record s { filled = 0 }) ≡ done (ended, rest)
      → poll_loop aes (ready (ok u) ∷ readiness) queue s ≡ done p
      → ((s' : Receiving) → poll_loop aes readiness rest s' ≡ done p → length p.queue ≤ length rest)
      → length p.queue ≤ length rest
  after_drained u readiness queue rest s (broken kind s') p e polled later =
      let ends = poll-broken aes none 0 u readiness queue rest s s' kind e in
      let same : p.queue ≡ rest = ap queue_of (sym polled ∙ ends) in rw same (omega arith)
  after_drained u readiness queue rest s (stopped s') p e polled later =
      elim (Bool-cases (ltb 0 s'.filled)) [
        | inl some_filled ↦
            let ends = poll-filled aes none 0 u readiness queue rest s s' e some_filled in
            let same : p.queue ≡ rest = ap queue_of (sym polled ∙ ends) in rw same (omega arith)
        | inr none_filled ↦
            later s'
              (sym (poll-again aes none 0 u readiness queue rest s s' e none_filled) ∙ polled)
      ]

  poll_loop-shorter :
      (readiness : Readiness) (queue : List Arrival) (s : Receiving) (p : Polled)
      → poll_loop aes readiness queue s ≡ done p
      → length p.queue ≤ length queue
  unfolding poll_loop
  poll_loop-shorter [] queue s p e =
      let same : p.queue ≡ queue = ap queue_of (sym e) in rw same (omega arith)
  poll_loop-shorter (pending ∷ readiness) queue s p e =
      let same : p.queue ≡ queue = ap queue_of (sym e) in rw same (omega arith)
  poll_loop-shorter (ready (err kind) ∷ readiness) queue s p e =
      let same : p.queue ≡ queue = ap queue_of (sym e) in rw same (omega arith)
  poll_loop-shorter (ready (ok u) ∷ readiness) queue s p e =
      let (ended, rest, drains) = drained_of u readiness queue s p e in
      let fewer =
        after_drained u readiness queue rest s ended p drains e
          (λ s' e'. poll_loop-shorter readiness rest s' p e') in
      let less = recv_loop-shorter queue rest (record s { filled = 0 }) ended drains in omega arith

  -- A call whose socket is readable at once, with a buffer to fill, takes an arrival if there is one.
  poll_loop-takes :
      (readiness : Readiness) (queue : List Arrival) (s : Receiving) (p : Polled)
      → 0 < length s.bufs
      → poll_loop aes readiness queue s ≡ done p
      → length p.queue ≤ length queue - ready_first readiness
  poll_loop-takes [] queue s p some_buf e =
      let less = poll_loop-shorter [] queue s p e in omega arith
  poll_loop-takes (pending ∷ readiness) queue s p some_buf e =
      let less = poll_loop-shorter (pending ∷ readiness) queue s p e in omega arith
  poll_loop-takes (ready (err kind) ∷ readiness) queue s p some_buf e =
      let less = poll_loop-shorter (ready (err kind) ∷ readiness) queue s p e in omega arith
  poll_loop-takes (ready (ok u) ∷ readiness) queue s p some_buf e =
      let (ended, rest, drains) = drained_of u readiness queue s p e in
      let fewer =
        after_drained u readiness queue rest s ended p drains e
          (λ s' e'. poll_loop-shorter readiness rest s' p e') in
      let less = recv_loop-takes queue rest s ended some_buf drains in omega arith

  pub poll_recv-takes :
      (socket : PacketSocket) (bufs : List (List ℕ)) (meta : List RecvMeta) (readiness : Readiness)
      (queue : List Arrival) (p : Polled)
      → 0 < length bufs
      → poll_recv aes socket bufs meta readiness queue ≡ done p
      → length p.queue ≤ length queue - ready_first readiness
  unfolding poll_recv
  poll_recv-takes socket bufs meta readiness queue p some_buf e =
      poll_loop-takes readiness queue
        (record { socket = socket; bufs = bufs; meta = meta; filled = 0 }) p some_buf e
