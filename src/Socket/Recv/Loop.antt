-- ===== src/Socket/Recv/Loop.antt =====
-- The inner loop of `poll_recv` does what the specification says, on every queue.
use pktauth.Base.{ℕ, List, [], ◌∷◌, ◌++◌, ◌≡◌, inl, inr, refl, sym, ◌∙◌, ap, Option, none, some}
use pktauth.Base.{
  done, All, get_elem?, if◌then◌else◌, ltb, Bool-cases, Option-cases, append-nil, append_assoc,
  arith,
}
use pktauth.Base.Slots.{none-get_elem?}
use pktauth.Base.Bytes.{AreBytes}
use pktauth.Net.{SocketAddr}
use pktauth.Auth.Cipher.{Aes128}
use pktauth.Auth.Authenticator.{Authenticator}
use pktauth.Socket.Counters.{
  ErrorKind, would_block, connection_refused, connection_reset, host_unreachable,
  network_unreachable, other,
}
use pktauth.Socket.Recv.{
  Arrival, datagram, failed, Receiving, go_on, stop, fail, Ended, stopped, broken, receive_one,
  recv_loop,
}
use pktauth.Socket.Recv.Delivered.{delivered}
use pktauth.Socket.Recv.Drain.{
  IsRaw, is_soft, keep, tally, Fits, final, EndsWell, drained, full, interrupted, fatal, Drains,
}
use pktauth.Socket.Recv.Step.{after, receive_one-after, after-Fits, after-delivered, after-counted}

module _ (aes : Aes128) where
  loop-full :
      (arrival : Arrival) (queue : List Arrival) (s : Receiving)
      → get_elem? s.bufs s.filled ≡ none
      → recv_loop aes (arrival ∷ queue) s ≡ done (stopped s, arrival ∷ queue)
  unfolding recv_loop
  loop-full arrival queue s e = rw (e, recv_loop)

  loop-go_on :
      (arrival : Arrival) (queue : List Arrival) (s s' : Receiving) (buf : List ℕ)
      → get_elem? s.bufs s.filled ≡ some buf
      → receive_one aes s buf arrival ≡ done (go_on s')
      → recv_loop aes (arrival ∷ queue) s ≡ recv_loop aes queue s'
  unfolding recv_loop
  loop-go_on arrival queue s s' buf e r = rw (e, r, recv_loop)

  loop-stop :
      (arrival : Arrival) (queue : List Arrival) (s s' : Receiving) (buf : List ℕ)
      → get_elem? s.bufs s.filled ≡ some buf
      → receive_one aes s buf arrival ≡ done (stop s')
      → recv_loop aes (arrival ∷ queue) s ≡ done (stopped s', queue)
  unfolding recv_loop
  loop-stop arrival queue s s' buf e r = rw (e, r, recv_loop)

  loop-fail :
      (arrival : Arrival) (queue : List Arrival) (s s' : Receiving) (kind : ErrorKind)
      (buf : List ℕ)
      → get_elem? s.bufs s.filled ≡ some buf
      → receive_one aes s buf arrival ≡ done (fail kind s')
      → recv_loop aes (arrival ∷ queue) s ≡ done (broken kind s', queue)
  unfolding recv_loop
  loop-fail arrival queue s s' kind buf e r = rw (e, r, recv_loop)

  receive_one-failed :
      (s : Receiving) (buf : List ℕ) (kind : ErrorKind)
      → receive_one aes s buf (failed kind)
        ≡ done (if is_soft kind then stop s else if ltb 0 s.filled then stop s else fail kind s)
  unfolding receive_one
  receive_one-failed s buf would_block = refl
  receive_one-failed s buf connection_refused = refl
  receive_one-failed s buf connection_reset = refl
  receive_one-failed s buf host_unreachable = refl
  receive_one-failed s buf network_unreachable = refl
  receive_one-failed s buf other = refl

  module _ (authenticator : Option Authenticator) (size : ℕ) where
    abbrev Drained : List Arrival → Receiving → Type 0
    Drained queue s =
        (ended : Ended) × (rest : List Arrival) × (recv_loop aes queue s ≡ done (ended, rest))
        × Drains aes authenticator size queue s ended rest

    stops_before :
        (queue : List Arrival) (s : Receiving)
        → Fits aes authenticator size s
        → EndsWell [] queue (stopped s)
        → Drains aes authenticator size queue s (stopped s) queue
    unfolding keep tally
    stops_before queue s f ends = record {
      consumed = [];
      split = refl;
      handed = sym (append-nil _);
      counted = refl;
      fits = f;
      ends = ends;
    }

    failed_first :
        (kind : ErrorKind) (queue : List Arrival) (s : Receiving) (ended : Ended)
        → final ended ≡ s
        → Fits aes authenticator size s
        → EndsWell (failed kind ∷ []) queue ended
        → Drains aes authenticator size (failed kind ∷ queue) s ended queue
    unfolding keep tally
    failed_first kind queue s ended same f ends = record {
      consumed = failed kind ∷ [];
      split = refl;
      handed = rw same (sym (append-nil _));
      counted = ap (λ t. t.socket) same;
      fits = rw same f;
      ends = ends;
    }

    loop_failed :
        (kind : ErrorKind) (queue : List Arrival) (s : Receiving) (buf : List ℕ)
        → Fits aes authenticator size s
        → get_elem? s.bufs s.filled ≡ some buf
        → Drained (failed kind ∷ queue) s
    loop_failed kind queue s buf f found = elim (Bool-cases (is_soft kind)) [
      | inl soft ↦ (
        stopped s,
        queue,
        loop-stop (failed kind) queue s s buf found (receive_one-failed s buf kind ∙ rw soft),
        failed_first kind queue s (stopped s) refl f (interrupted s [] kind refl refl (inl soft)),
      )
      | inr hard ↦ elim (Bool-cases (ltb 0 s.filled)) [
        | inl some_filled ↦ (
          stopped s,
          queue,
          loop-stop (failed kind) queue s s buf found
              (receive_one-failed s buf kind ∙ rw (hard, some_filled)),
          failed_first kind queue s (stopped s) refl f
              (interrupted s [] kind refl refl (inr (ground arith))),
        )
        | inr none_filled ↦ (
          broken kind s,
          queue,
          loop-fail (failed kind) queue s s kind buf found
              (receive_one-failed s buf kind ∙ rw (hard, none_filled)),
          failed_first kind queue s (broken kind s) refl f
              (fatal s [] kind refl refl hard (ground arith)),
        )
      ]
    ]

    EndsWell-cons :
        (arrival : Arrival) (consumed rest : List Arrival) (ended : Ended)
        → EndsWell consumed rest ended
        → EndsWell (arrival ∷ consumed) rest ended
    EndsWell-cons arrival consumed rest ended (drained s e r) = drained s e r
    EndsWell-cons arrival consumed rest ended (full s e h) = full s e h
    EndsWell-cons arrival consumed rest ended (interrupted s front kind e c h) =
        interrupted s (arrival ∷ front) kind e (ap (λ t. arrival ∷ t) c) h
    EndsWell-cons arrival consumed rest ended (fatal s front kind e c h z) =
        fatal s (arrival ∷ front) kind e (ap (λ t. arrival ∷ t) c) h z

    keep-cons :
        (payload : List ℕ) (from : SocketAddr) (queue : List Arrival)
        → keep aes authenticator size (datagram payload from ∷ queue)
          ≡ keep aes authenticator size (datagram payload from ∷ [])
            ++ keep aes authenticator size queue
    unfolding keep
    keep-cons payload from queue = ground arith

    datagram_first :
        (payload : List ℕ) (from : SocketAddr) (queue : List Arrival) (s : Receiving) (buf : List ℕ)
        (ended : Ended) (rest : List Arrival)
        → Fits aes authenticator size s
        → get_elem? s.bufs s.filled ≡ some buf
        → Drains aes authenticator size queue
            (after aes authenticator size s buf payload from)
            ended
            rest
        → Drains aes authenticator size (datagram payload from ∷ queue) s ended rest
    unfolding tally
    datagram_first payload from queue s buf ended rest f found d = record {
      consumed = datagram payload from ∷ d.consumed;
      split = ap (λ t. datagram payload from ∷ t) d.split;
      handed =
          d.handed
          ∙ ap (λ t. t ++ keep aes authenticator size d.consumed)
              (after-delivered aes authenticator size s buf payload from f found)
          ∙ append_assoc (delivered s.filled s.bufs s.meta)
              (keep aes authenticator size (datagram payload from ∷ []))
              (keep aes authenticator size d.consumed)
          ∙ ap (λ t. delivered s.filled s.bufs s.meta ++ t)
              (sym (keep-cons payload from d.consumed));
      counted =
          d.counted
          ∙ ap (tally aes authenticator size d.consumed)
              (after-counted aes authenticator size s buf payload from f found);
      fits = d.fits;
      ends = EndsWell-cons (datagram payload from) d.consumed rest ended d.ends;
    }

    datagram-Drained :
        (payload : List ℕ) (from : SocketAddr) (queue : List Arrival) (s : Receiving) (buf : List ℕ)
        → Fits aes authenticator size s
        → get_elem? s.bufs s.filled ≡ some buf
        → AreBytes payload
        → Drained queue (after aes authenticator size s buf payload from)
        → Drained (datagram payload from ∷ queue) s
    datagram-Drained payload from queue s buf f found bytes (ended, rest, runs, d) = (
      ended,
      rest,
      loop-go_on (datagram payload from) queue s (after aes authenticator size s buf payload from)
            buf found (receive_one-after aes authenticator size s buf payload from f found bytes)
          ∙ runs,
      datagram_first payload from queue s buf ended rest f found d,
    )

    no_room :
        (arrival : Arrival) (queue : List Arrival) (s : Receiving)
        → Fits aes authenticator size s
        → get_elem? s.bufs s.filled ≡ none
        → Drained (arrival ∷ queue) s
    no_room arrival queue s f nothing = (
      stopped s,
      arrival ∷ queue,
      loop-full arrival queue s nothing,
      stops_before (arrival ∷ queue) s f
          (full s refl (omega (arith, f.within, none-get_elem? s.bufs s.filled nothing))),
    )

    -- The inner loop ends without a panic on every queue: it takes a front of the queue, hands over
    -- in order the datagrams that pass, counts every one, and stops for a stated reason.
    pub recv_loop-Drains :
        (queue : List Arrival) (s : Receiving)
        → Fits aes authenticator size s
        → All IsRaw queue
        → (ended : Ended) × (rest : List Arrival) × (recv_loop aes queue s ≡ done (ended, rest))
          × Drains aes authenticator size queue s ended rest
    recv_loop-Drains [] s f raw =
        (stopped s, [], unfold recv_loop in refl, stops_before [] s f (drained s refl refl))
    recv_loop-Drains (failed kind ∷ queue) s f raw =
        elim (Option-cases (get_elem? s.bufs s.filled)) [
          | inl nothing ↦ no_room (failed kind) queue s f nothing
          | inr (buf, found) ↦ loop_failed kind queue s buf f found
        ]
    recv_loop-Drains (datagram payload from ∷ queue) s f raw =
        elim (Option-cases (get_elem? s.bufs s.filled)) [
          | inl nothing ↦ no_room (datagram payload from) queue s f nothing
          | inr (buf, found) ↦ datagram-Drained payload from queue s buf f found raw.0 (
              recv_loop-Drains queue (after aes authenticator size s buf payload from)
                (after-Fits aes authenticator size s buf payload from f found) raw.1)
        ]
