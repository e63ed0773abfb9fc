-- ===== src/Ping/Tests.antt =====
-- Pings at concrete sizes and over a stream that loses nothing.
use pktauth.Base.{
  ℕ, ◌≤◌, List, [], ◌∷◌, ◌≡◌, refl, Result, ok, err, done, leb, if◌then◌else◌, length, arith,
}
use pktauth.Base.{ap, ◌∙◌, Bool-cases, inl, inr}
use pktauth.Ping.Payload.{ping_payload, ping_payload-distinct}
use pktauth.Ping.Streams.{max_ping_bytes, Error, read, Stream, Opened, ping, echo_stream}
use pktauth.Ping.Echo.{PingReason, ping-PingReason, IsFaithful}

abbrev ping_seven : List ℕ
ping_seven = 0 ∷ 0 ∷ 0 ∷ 0 ∷ 0 ∷ 0 ∷ 0 ∷ 7 ∷ 0 ∷ 1 ∷ []

payload_seven : ping_payload 7 10 ≡ done ping_seven
unfolding ping_payload
payload_seven = refl

payload_short : ping_payload 0xffffffffffffffff 3 ≡ done (0xff ∷ 0xff ∷ 0xff ∷ [])
unfolding ping_payload
payload_short = refl

abbrev seven : ℕ
seven = 7

ping_payload-distinct_example : seven ≡ seven
ping_payload-distinct_example =
    ping_payload-distinct seven seven 10 (omega arith) (omega arith) (omega arith) refl

abbrev pub limited : List ℕ → ℕ → Result (List ℕ) Error
limited bytes limit = if leb (length bytes) limit then ok bytes else err read

abbrev pub far : List ℕ → Stream
far payload = record {
  read_to_end = limited payload;
  write_all = λ bytes. ok tt;
  finish = λ bytes. ok tt;
}

-- The far end echoes what it reads.
abbrev pub near : Opened
near = record { write_all = λ bytes. ok tt; finish = λ bytes. ok tt; read_to_end = limited }

limited-ok : (bytes : List ℕ) (limit : ℕ) → length bytes ≤ limit → limited bytes limit ≡ ok bytes
limited-ok bytes limit h = ground arith

echo_stream-far : (payload sent : List ℕ) → echo_stream (far payload) ≡ ok sent → payload ≡ sent
unfolding echo_stream
echo_stream-far payload sent e = elim (Bool-cases (leb (length payload) max_ping_bytes)) [
  | inl short ↦
      let back : echo_stream (far payload) ≡ ok payload = rw (echo_stream, short) refl in
      cc (e, back)
  | inr long ↦
      let refused : echo_stream (far payload) ≡ err read = rw (echo_stream, long) refl in
      absurd (cc (e, refused))
]

pub near-IsFaithful : (payload : List ℕ) → IsFaithful payload near (far payload)
near-IsFaithful payload = record {
  near_write = refl;
  near_finish = refl;
  far_read = limited-ok payload;
  far_write = λ bytes. refl;
  far_finish = λ bytes. refl;
  near_read = λ limit sent e h.
      let same = echo_stream-far payload sent e in
      limited-ok payload limit (omega (arith, ap length same)) ∙ ap ok same;
}

ping-PingReason_example : PingReason near ping_seven (ping (ok near) ping_seven)
ping-PingReason_example = ping-PingReason near ping_seven
