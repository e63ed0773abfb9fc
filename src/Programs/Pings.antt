-- ===== src/Programs/Pings.antt =====
-- How the loop of pings ends, and what it counts.
use pktauth.Base.{
  ℕ, zero, suc, ◌+◌, ◌<◌, List, [], ◌∷◌, none, some, ltb, ◌≡◌, ◌∙◌, true, false, refl, arith,
}
use pktauth.Base.{done, Result, ok, err, length, length-append, ◌==◌}
use pktauth.Ping.Payload.{ping_payload, ping_payload-length}
use pktauth.Ping.Streams.{Error}
use pktauth.Programs.Pinging.{Pinging, started, count_ping, ping_loop}

-- Every ping so far was echoed or lost.
abbrev pub Accounted : Pinging → Type 0
Accounted s = length s.rtts + s.lost ≡ s.seq

pub count_ping-Accounted :
    (outcome : Result ℕ Error) (s : Pinging) → Accounted s → Accounted (count_ping outcome s)
count_ping-Accounted (ok rtt) s h = omega (arith, length-append s.rtts (rtt ∷ []))
count_ping-Accounted (err e) s h = omega arith

count_ping-seq : (outcome : Result ℕ Error) (s : Pinging) → (count_ping outcome s).seq ≡ s.seq + 1
count_ping-seq (ok rtt) s = refl
count_ping-seq (err e) s = refl

module _ (ping : ℕ → List ℕ → Result ℕ Error) (size : ℕ) where
  ping_loop-step :
      (fuel count : ℕ) (s : Pinging) {payload : List ℕ}
      → s.seq < count
      → ping_payload s.seq size ≡ done payload
      → ping_loop ping count size (suc fuel) s
        ≡ ping_loop ping count size fuel (count_ping (ping s.seq payload) s)
  unfolding ping_loop
  ping_loop-step fuel count s below made =
      let counted : (count == 0) ≡ false = ground arith in
      let going : ltb s.seq count ≡ true = ground arith in rw (counted, going, made) refl

  -- What every round keeps, the loop keeps to its end.
  module _ (Kept : Pinging → Type 0)
      (kept : (s : Pinging) (payload : List ℕ)
        → ping_payload s.seq size ≡ done payload
        → Kept s
        → Kept (count_ping (ping s.seq payload) s)) where
    pub ping_loop-Kept :
        (fuel count : ℕ) (s : Pinging)
        → 0 < count
        → Kept s
        → s.seq + fuel ≡ count
        → (s' : Pinging) × (ping_loop ping count size (suc fuel) s ≡ done (some s'))
          × (s'.seq ≡ count)
          × Kept s'
    unfolding ping_loop
    ping_loop-Kept zero count s positive h e =
        let last : s.seq ≡ count = omega arith in (s, ground arith, last, h)
    ping_loop-Kept (suc fuel) count s positive h e =
        let (payload, made, _) = ping_payload-length s.seq size in
        let outcome = ping s.seq payload in
        let (s', ended, last, h') =
          ping_loop-Kept fuel count (count_ping outcome s) positive (kept s payload made h)
            (omega (arith, count_ping-seq outcome s)) in
        (s', ping_loop-step (suc fuel) count s (omega arith) made ∙ ended, last, h')

  -- With a count the client's loop ends, after exactly that many pings, each counted once as echoed
  -- or as lost. It panics on no size.
  ping_loop_total :
      (count : ℕ)
      → 0 < count
      → (s : Pinging) × (ping_loop ping count size (suc count) started ≡ done (some s))
        × (s.seq ≡ count)
        × (length s.rtts + s.lost ≡ count)
  ping_loop_total count positive =
      let (s, ended, last, h) =
        ping_loop-Kept Accounted (λ s payload made. count_ping-Accounted (ping s.seq payload) s)
          count count started positive refl (omega arith) in
      (s, ended, last, omega arith)

  -- With a count of zero no number of rounds ends the client's loop, and none of them panics.
  ping_loop_unending : (fuel : ℕ) (s : Pinging) → ping_loop ping 0 size fuel s ≡ done none
  unfolding ping_loop
  ping_loop_unending zero s = refl
  ping_loop_unending (suc fuel) s =
      let (payload, made, _) = ping_payload-length s.seq size in
      rw (made) (ping_loop_unending fuel (count_ping (ping s.seq payload) s))
