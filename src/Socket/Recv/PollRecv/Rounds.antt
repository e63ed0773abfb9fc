-- ===== src/Socket/Recv/PollRecv/Rounds.antt =====
-- The rounds of the outer loop put together.
use pktauth.Base.{
  ℕ, ◌≤◌, List, [], ◌∷◌, ◌++◌, ◌≡◌, ◌⊎◌, inl, inr, refl, sym, ◌∙◌, ap, subst, Option, true, false,
}
use pktauth.Base.{done, Result, ok, err, All, length, ltb, Bool-cases, append_assoc, arith}
use pktauth.Auth.Cipher.{Aes128}
use pktauth.Auth.Authenticator.{Authenticator}
use pktauth.Socket.Counters.{PacketSocket, ErrorKind, Poll, ready, pending}
use pktauth.Socket.Recv.{
  Arrival, Receiving, RecvMeta, Ended, stopped, broken, Polled, recv_loop, poll_loop, poll_recv,
}
use pktauth.Socket.Recv.Delivered.{delivered}
use pktauth.Socket.Recv.Drain.{IsRaw, is_soft, keep, tally, Fits, Drains}
use pktauth.Socket.Recv.Loop.{recv_loop-Drains}
use pktauth.Socket.Recv.PollRecv.{
  Readiness, keep-append, tally-append, Answers, handed_over, waits, reports, Delivers,
}
use pktauth.Socket.Recv.PollRecv.{
  poll-broken, poll-filled, poll-again, EndsWell-broken, All-right, nothing_kept,
}

module _ (aes : Aes128) (authenticator : Option Authenticator) (size : ℕ) where
  abbrev Polls : Readiness → List Arrival → Receiving → Type 0
  Polls readiness queue s =
      (p : Polled) × (poll_loop aes readiness queue s ≡ done p)
      × Delivers aes authenticator size readiness queue s.socket p

  at_once :
      (readiness : Readiness) (queue : List Arrival) (s : Receiving)
      (answer : Poll (Result ℕ ErrorKind))
      → poll_loop aes readiness queue s
        ≡ done (record { answer = answer; state = s; queue = queue })
      → Answers aes authenticator size readiness []
          (record { answer = answer; state = s; queue = queue })
      → Polls readiness queue s
  unfolding tally
  at_once readiness queue s answer runs answers = (
    record { answer = answer; state = s; queue = queue },
    runs,
    record { consumed = []; split = refl; counted = refl; answers = answers },
  )

  Answers-cons :
      (first : Poll (Result (Unit {0}) ErrorKind)) (readiness : Readiness)
      (before after : List Arrival) (p : Polled)
      → keep aes authenticator size before ≡ []
      → Answers aes authenticator size readiness after p
      → Answers aes authenticator size (first ∷ readiness) (before ++ after) p
  Answers-cons first readiness before after p nothing (handed_over n a pos fits described e) =
      handed_over n a pos fits described
        (e ∙ sym (keep-append aes authenticator size before after ∙ rw nothing))
  Answers-cons first readiness before after p nothing (waits a e) =
      waits a (keep-append aes authenticator size before after ∙ rw (nothing, e))
  Answers-cons first readiness before after p nothing (reports kind a e why) =
      reports kind a (keep-append aes authenticator size before after ∙ rw (nothing, e))
        (earlier why)
    where
      earlier :
          (is_soft kind ≡ false)
            ⊎ ((front back : Readiness) × (readiness ≡ front ++ (ready (err kind) ∷ back)))
          → (is_soft kind ≡ false)
            ⊎ ((front back : Readiness) × (first ∷ readiness ≡ front ++ (ready (err kind) ∷ back)))
      earlier (inl hard) = inl hard
      earlier (inr (front, back, e)) = inr (first ∷ front, back, ap (λ t. first ∷ t) e)

  broken_round :
      (u : Unit {0}) (readiness : Readiness) (queue rest : List Arrival) (s s' : Receiving)
      (kind : ErrorKind)
      → recv_loop aes queue (record s { filled = 0 }) ≡ done (broken kind s', rest)
      → Drains aes authenticator size queue (record s { filled = 0 }) (broken kind s') rest
      → Polls (ready (ok u) ∷ readiness) queue s
  broken_round u readiness queue rest s s' kind runs d =
      let (hard, nothing) = EndsWell-broken aes authenticator size d.consumed rest kind s' d.ends in
      (
        record { answer = ready (err kind); state = s'; queue = rest },
        poll-broken aes authenticator size u readiness queue rest s s' kind runs,
        record {
          consumed = d.consumed;
          split = d.split;
          counted = d.counted;
          answers =
              reports kind refl
                (nothing_kept aes authenticator size queue rest s (broken kind s') d nothing)
                (inl hard);
        },
      )

  filled_round :
      (u : Unit {0}) (readiness : Readiness) (queue rest : List Arrival) (s s' : Receiving)
      → recv_loop aes queue (record s { filled = 0 }) ≡ done (stopped s', rest)
      → Drains aes authenticator size queue (record s { filled = 0 }) (stopped s') rest
      → ltb 0 s'.filled ≡ true
      → Polls (ready (ok u) ∷ readiness) queue s
  unfolding delivered
  filled_round u readiness queue rest s s' runs d some_filled = (
    record { answer = ready (ok s'.filled); state = s'; queue = rest },
    poll-filled aes authenticator size u readiness queue rest s s' runs some_filled,
    record {
      consumed = d.consumed;
      split = d.split;
      counted = d.counted;
      answers =
          handed_over s'.filled refl (ground arith) d.fits.within
            (omega (arith, d.fits.within, d.fits.described)) d.handed;
    },
  )

  empty_round :
      (u : Unit {0}) (readiness : Readiness) (queue rest : List Arrival) (s s' : Receiving)
      → recv_loop aes queue (record s { filled = 0 }) ≡ done (stopped s', rest)
      → (d : Drains aes authenticator size queue (record s { filled = 0 }) (stopped s') rest)
      → ltb 0 s'.filled ≡ false
      → Polls readiness rest s'
      → Polls (ready (ok u) ∷ readiness) queue s
  empty_round u readiness queue rest s s' runs d none_filled (p, later, delivers) =
      let nothing : s'.filled ≡ 0 = ground arith in
      (
        p,
        poll-again aes authenticator size u readiness queue rest s s' runs none_filled ∙ later,
        record {
          consumed = d.consumed ++ delivers.consumed;
          split =
              d.split
              ∙ ap (λ t. d.consumed ++ t) delivers.split
              ∙ sym (append_assoc d.consumed delivers.consumed p.queue);
          counted =
              delivers.counted
              ∙ ap (tally aes authenticator size delivers.consumed) d.counted
              ∙ sym (tally-append aes authenticator size d.consumed delivers.consumed s.socket);
          answers =
              Answers-cons (ready (ok u)) readiness d.consumed delivers.consumed p
                (nothing_kept aes authenticator size queue rest s (stopped s') d nothing)
                delivers.answers;
        },
      )

  Drained : List Arrival → Receiving → Type 0
  Drained queue s =
      (ended : Ended) × (rest : List Arrival) × (recv_loop aes queue s ≡ done (ended, rest))
      × Drains aes authenticator size queue s ended rest

  one_round :
      (u : Unit {0}) (readiness : Readiness) (queue : List Arrival) (s : Receiving)
      → All IsRaw queue
      → Drained queue (record s { filled = 0 })
      → ((rest : List Arrival) (s' : Receiving)
          → Fits aes authenticator size s'
          → All IsRaw rest
          → Polls readiness rest s')
      → Polls (ready (ok u) ∷ readiness) queue s
  unfolding Drained
  one_round u readiness queue s raw (broken kind s', rest, runs, d) again =
      broken_round u readiness queue rest s s' kind runs d
  one_round u readiness queue s raw (stopped s', rest, runs, d) again =
      elim (Bool-cases (ltb 0 s'.filled)) [
        | inl some_filled ↦ filled_round u readiness queue rest s s' runs d some_filled
        | inr none_filled ↦ empty_round u readiness queue rest s s' runs d none_filled (
            again rest s' d.fits
              (All-right aes authenticator size d.consumed rest (subst (All IsRaw) d.split raw)))
      ]

  poll_loop-Polls :
      (readiness : Readiness) (queue : List Arrival) (s : Receiving)
      → Fits aes authenticator size s
      → All IsRaw queue
      → Polls readiness queue s
  unfolding poll_loop keep Drained
  poll_loop-Polls [] queue s f raw = at_once [] queue s pending refl (waits refl refl)
  poll_loop-Polls (pending ∷ readiness) queue s f raw =
      at_once (pending ∷ readiness) queue s pending refl (waits refl refl)
  poll_loop-Polls (ready (err kind) ∷ readiness) queue s f raw =
      at_once (ready (err kind) ∷ readiness) queue s (ready (err kind)) refl
        (reports kind refl refl (inr ([], readiness, refl)))
  poll_loop-Polls (ready (ok u) ∷ readiness) queue s f raw =
      one_round u readiness queue s raw
        (recv_loop-Drains aes authenticator size queue (record s { filled = 0 })
          (record {
            capacities = f.capacities;
            described = f.described;
            within = omega arith;
            own = f.own;
          })
          raw)
        (λ rest s' f' raw'. poll_loop-Polls readiness rest s' f' raw')

-- With equal buffers and a description for each, `poll_recv` never panics. It takes a front of the
-- arrivals and counts them. Where it answers `Ok(n)`, its first `n` slots are, in order, exactly
-- the datagrams of that front which pass the socket's authenticator; where it answers anything
-- else, none of that front passed, and an error is a fatal one or came from `poll_recv_ready`.
pub poll_recv-Delivers :
    (aes : Aes128) (size : ℕ) (socket : PacketSocket) (bufs : List (List ℕ)) (meta : List RecvMeta)
    (readiness : Readiness) (queue : List Arrival)
    → All (λ buf. length buf ≡ size) bufs
    → length bufs ≤ length meta
    → All IsRaw queue
    → (p : Polled) × (poll_recv aes socket bufs meta readiness queue ≡ done p)
      × Delivers aes socket.authenticator size readiness queue socket p
unfolding poll_recv
poll_recv-Delivers aes size socket bufs meta readiness queue same enough raw =
    poll_loop-Polls aes socket.authenticator size readiness queue
      (record { socket = socket; bufs = bufs; meta = meta; filled = 0 })
      (record { capacities = same; described = enough; within = omega arith; own = refl }) raw
