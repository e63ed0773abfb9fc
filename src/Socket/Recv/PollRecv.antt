-- ===== src/Socket/Recv/PollRecv.antt =====
-- What Quinn is handed by `poll_recv`: the datagrams that pass, in order, and no other; and none
-- that passes is lost where it gets nothing.
pub mod Rounds
pub mod Counts
pub mod Admitted
use pktauth.Base.{
  ℕ, zero, ◌≤◌, ◌<◌, List, [], ◌∷◌, ◌++◌, ◌≡◌, ◌⊎◌, inl, inr, refl, sym, ◌∙◌, ap, Option, none,
  some, Bool, true, false,
}
use pktauth.Base.{
  Run, done, ◌>>=◌, Result, ok, err, All, length, if◌then◌else◌, ltb, Bool-cases, append_assoc,
  arith,
}
use pktauth.Auth.Cipher.{Aes128}
use pktauth.Auth.Authenticator.{Authenticator}
use pktauth.Socket.Counters.{PacketSocket, ErrorKind, Poll, ready, pending}
use pktauth.Socket.Recv.{
  Arrival, datagram, failed, Receiving, RecvMeta, Ended, stopped, broken, Polled, recv_loop,
  poll_loop, poll_recv,
}
use pktauth.Socket.Recv.Delivered.{Packet, delivered}
use pktauth.Socket.Recv.Drain.{
  IsRaw, is_soft, keep, tally, Fits, final, EndsWell, drained, full, interrupted, fatal, Drains,
}
use pktauth.Socket.Recv.Loop.{recv_loop-Drains}

abbrev pub Readiness : Type 0
Readiness = List (Poll (Result (Unit {0}) ErrorKind))

module _ (aes : Aes128) (authenticator : Option Authenticator) (size : ℕ) where
  pub keep-append :
      (xs ys : List Arrival)
      → keep aes authenticator size (xs ++ ys)
        ≡ keep aes authenticator size xs ++ keep aes authenticator size ys
  unfolding keep
  keep-append [] ys = refl
  keep-append (datagram payload from ∷ xs) ys = ground (arith, keep-append xs ys)
  keep-append (failed kind ∷ xs) ys = keep-append xs ys

  pub tally-append :
      (xs ys : List Arrival) (socket : PacketSocket)
      → tally aes authenticator size (xs ++ ys) socket
        ≡ tally aes authenticator size ys (tally aes authenticator size xs socket)
  unfolding tally
  tally-append [] ys socket = refl
  tally-append (datagram payload from ∷ xs) ys socket = tally-append xs ys _
  tally-append (failed kind ∷ xs) ys socket = tally-append xs ys socket

  -- The answer and what it says of the arrivals that were taken.
  pub data Answers (readiness : Readiness) (consumed : List Arrival) (p : Polled) : Type 0 where
    handed_over :
        (n : ℕ)
        → p.answer ≡ ready (ok n)
        → 0 < n
        → n ≤ length p.state.bufs
        → n ≤ length p.state.meta
        → delivered n p.state.bufs p.state.meta ≡ keep aes authenticator size consumed
        → Answers readiness consumed p
    waits :
        p.answer ≡ pending
        → keep aes authenticator size consumed ≡ []
        → Answers readiness consumed p
    reports :
        (kind : ErrorKind)
        → p.answer ≡ ready (err kind)
        → keep aes authenticator size consumed ≡ []
        → (is_soft kind ≡ false)
          ⊎ ((front back : Readiness) × (readiness ≡ front ++ (ready (err kind) ∷ back)))
        → Answers readiness consumed p

  pub record Delivers (readiness : Readiness) (queue : List Arrival) (socket : PacketSocket)
      (p : Polled) : Type 0 where
    pub consumed : List Arrival
    pub split : queue ≡ consumed ++ p.queue
    pub counted : p.state.socket ≡ tally aes authenticator size consumed socket
    pub answers : Answers readiness consumed p

  pub poll-broken :
      (u : Unit {0}) (readiness : Readiness) (queue rest : List Arrival) (s s' : Receiving)
      (kind : ErrorKind)
      → recv_loop aes queue (record s { filled = 0 }) ≡ done (broken kind s', rest)
      → poll_loop aes (ready (ok u) ∷ readiness) queue s
        ≡ done (record { answer = ready (err kind); state = s'; queue = rest })
  unfolding poll_loop
  poll-broken u readiness queue rest s s' kind e = rw (e, poll_loop)

  pub poll-filled :
      (u : Unit {0}) (readiness : Readiness) (queue rest : List Arrival) (s s' : Receiving)
      → recv_loop aes queue (record s { filled = 0 }) ≡ done (stopped s', rest)
      → ltb 0 s'.filled ≡ true
      → poll_loop aes (ready (ok u) ∷ readiness) queue s
        ≡ done (record { answer = ready (ok s'.filled); state = s'; queue = rest })
  unfolding poll_loop
  poll-filled u readiness queue rest s s' e some_filled = rw (e, some_filled, poll_loop)

  pub poll-again :
      (u : Unit {0}) (readiness : Readiness) (queue rest : List Arrival) (s s' : Receiving)
      → recv_loop aes queue (record s { filled = 0 }) ≡ done (stopped s', rest)
      → ltb 0 s'.filled ≡ false
      → poll_loop aes (ready (ok u) ∷ readiness) queue s ≡ poll_loop aes readiness rest s'
  unfolding poll_loop
  poll-again u readiness queue rest s s' e none_filled = rw (e, none_filled, poll_loop)

  pub EndsWell-broken :
      (consumed rest : List Arrival) (kind : ErrorKind) (s : Receiving)
      → EndsWell consumed rest (broken kind s)
      → (is_soft kind ≡ false) × (s.filled ≡ 0)
  EndsWell-broken consumed rest kind s (drained s' e r) = cc
  EndsWell-broken consumed rest kind s (full s' e h) = cc
  EndsWell-broken consumed rest kind s (interrupted s' front k e c h) = cc
  EndsWell-broken consumed rest kind s (fatal s' front k e c h z) =
      let same_kind : kind ≡ k = cc in
      let same_state : s ≡ s' = cc in (rw same_kind h, rw same_state z)

  pub All-right : (xs ys : List Arrival) → All IsRaw (xs ++ ys) → All IsRaw ys
  All-right [] ys h = h
  All-right (x ∷ xs) ys h = All-right xs ys h.1

  -- What a round that filled nothing says of what it took.
  pub nothing_kept :
      (queue rest : List Arrival) (s : Receiving) (ended : Ended)
      (d : Drains aes authenticator size queue (record s { filled = 0 }) ended rest)
      → (final ended).filled ≡ 0
      → keep aes authenticator size d.consumed ≡ []
  unfolding delivered
  nothing_kept queue rest s ended d none_filled =
      sym d.handed ∙ ap (λ n. delivered n ((final ended).bufs) ((final ended).meta)) none_filled
