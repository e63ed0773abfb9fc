-- ===== src/Programs/Lossless.antt =====
-- src/bin/client.rs over the streams of src/lib.rs: what the client reports of a server that echoes.
mod Tests
use pktauth.Base.{
  ℕ, zero, suc, ◌+◌, ◌^◌, ◌≤◌, ◌<◌, List, [], ◌∷◌, ◌++◌, none, some, ◌≡◌, refl, sym, ap, ap₂, ◌∙◌,
  subst, arith,
}
use pktauth.Base.{Run, done, Result, ok, err, length, length-append, Result-cases, inl, inr}
use pktauth.Base.Actions.{Ran, returned}
use pktauth.Net.{SocketAddr}
use pktauth.Ping.Payload.{ping_payload}
use pktauth.Ping.Streams.{ConnectionError, Error, Stream, Opened, ping, max_ping_bytes}
use pktauth.Ping.Echo.{IsFaithful, ping-echo_stream}
use pktauth.Programs.Setup.{ClientArgs}
use pktauth.Programs.Pinging.{Pinging, started, count_ping, ping_loop}
use pktauth.Programs.Pings.{ping_loop-Kept}
use pktauth.Programs.Summary.{Summary, print_summary}
use pktauth.Programs.Summary.Pinged.{IsBrief, Summarises, brief_limit, started-Summarises}
use pktauth.Programs.ClientMain.{
  ClientWorld, connected, pinged, closed, waited, printed, connect_and_ping,
}

-- `ping` on the stream that is opened for each number, and the time that it takes.
abbrev pub timed_ping : (ℕ → Result Opened ConnectionError) → (ℕ → ℕ) → ℕ → List ℕ → Result ℕ Error
timed_ping opened rtt seq payload = elim (ping (opened seq) payload) [
  | ok _ ↦ ok (rtt seq)
  | err e ↦ err e
]

-- The times of the first pings.
abbrev pub rtts_to : (ℕ → ℕ) → ℕ → List ℕ
rtts_to rtt zero = []
rtts_to rtt (suc n) = rtts_to rtt n ++ (rtt n ∷ [])

length-rtts_to : (rtt : ℕ → ℕ) (n : ℕ) → length (rtts_to rtt n) ≡ n
length-rtts_to rtt zero = refl
length-rtts_to rtt (suc n) =
    omega (arith, length-append (rtts_to rtt n) (rtt n ∷ []), length-rtts_to rtt n)

-- Every ping so far came back.
record AllBack (rtt : ℕ → ℕ) (s : Pinging) : Type 0 where
  none_lost : s.lost ≡ 0
  times : s.rtts ≡ rtts_to rtt s.seq

module _ (near : ℕ → Opened) (far : ℕ → Stream) (rtt : ℕ → ℕ) (size : ℕ)
    (allowed : size ≤ max_ping_bytes)
    (faithful : (seq : ℕ) (payload : List ℕ)
      → ping_payload seq size ≡ done payload
      → IsFaithful payload (near seq) (far seq)) where
  echoed :
      (seq : ℕ) (payload : List ℕ)
      → ping_payload seq size ≡ done payload
      → timed_ping (λ seq. ok (near seq)) rtt seq payload ≡ ok (rtt seq)
  echoed seq payload made =
      let (_, answered) =
        ping-echo_stream seq size payload (near seq) (far seq) made allowed
          (faithful seq payload made) in
      rw (timed_ping, answered) refl

  -- One ping more.
  AllBack-suc : (s : Pinging) → AllBack rtt s → AllBack rtt (count_ping (ok (rtt s.seq)) s)
  AllBack-suc s back =
      let next_seq : suc s.seq ≡ s.seq + 1 = omega arith in
      record {
        none_lost = back.none_lost;
        times = ap (λ t. t ++ (rtt s.seq ∷ [])) back.times ∙ ap (rtts_to rtt) next_seq;
      }

  count_ping-AllBack :
      (s : Pinging) (payload : List ℕ)
      → ping_payload s.seq size ≡ done payload
      → AllBack rtt s
      → AllBack rtt (count_ping (timed_ping (λ seq. ok (near seq)) rtt s.seq payload) s)
  count_ping-AllBack s payload made back =
      subst (λ outcome. AllBack rtt (count_ping outcome s)) (sym (echoed s.seq payload made))
        (AllBack-suc s back)

  timed_ping-IsBrief :
      (seq : ℕ) (payload : List ℕ)
      → rtt seq < brief_limit
      → IsBrief (timed_ping (λ seq. ok (near seq)) rtt seq payload)
  timed_ping-IsBrief seq payload h = elim (Result-cases (ping (ok (near seq)) payload)) [
    | inl answered ↦ rw (timed_ping, answered.1) h
    | inr failed ↦ rw (timed_ping, failed.1) tt
  ]

  -- What the client does after it is set up, where it is connected, each ping's stream loses nothing
  -- and is served by `echo_stream`, the count is from 1 to 2 ^ 32 - 1 and each round trip is below
  -- 2 ^ 32 seconds: it reports the peer, makes as many pings as were asked for, closes, waits, and
  -- prints a summary without a loss, with the figures of all the round trips, in order.
  pub connect_and_ping-Lossless :
      (world : ClientWorld) (args : ClientArgs) (remote : SocketAddr)
      → args.size ≡ size
      → 0 < args.count
      → args.count < 2 ^ 32
      → ((seq : ℕ) → rtt seq < brief_limit)
      → world.connect args.server args.server_name ≡ ok tt
      → world.handshake ≡ ok remote
      → (s : Pinging) × (summary : Summary) × (connect_and_ping
            (record world { ping = timed_ping (λ seq. ok (near seq)) rtt })
            args
            (suc args.count)
          ≡ record {
            log = connected remote ∷ pinged (some s) ∷ closed ∷ waited ∷ printed summary ∷ [];
            exit = returned tt;
          })
        × (summary.loss_pct.numerator ≡ 0)
        × Summarises args.count (rtts_to rtt args.count) world.counts summary
  unfolding connect_and_ping
  connect_and_ping-Lossless world args remote sized positive few brief dialled shaken =
      let each = timed_ping (λ seq. ok (near seq)) rtt in
      let (s, summary, ended, printed_as, is) =
        started-Summarises each args.count size world.counts positive few
          (λ seq payload. timed_ping-IsBrief seq payload (brief seq)) in
      let (s', ended', last, back) =
        ping_loop-Kept each size (AllBack rtt) count_ping-AllBack args.count args.count started
          positive (record { none_lost = refl; times = refl }) (omega arith) in
      let same : s' ≡ s = cc (ended, ended') in
      let times : s.rtts ≡ rtts_to rtt args.count =
        ap (λ t. t.rtts) (sym same) ∙ back.times ∙ ap (rtts_to rtt) last in
      let summed = subst (λ t. Summarises args.count t world.counts summary) times is in
      (
        s,
        summary,
        rw (dialled, shaken, sized, ended, printed_as) refl,
        omega (arith, summed.lost, summed.echoed, length-rtts_to rtt args.count),
        summed,
      )
