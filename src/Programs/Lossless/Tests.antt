-- ===== src/Programs/Lossless/Tests.antt =====
-- Five pings to a server that echoes.
use pktauth.Base.{ℕ, List, [], ◌∷◌, ◌≡◌, refl, some, Run, done, panic, ok, arith}
use pktauth.Base.Actions.{returned}
use pktauth.Ping.Payload.{ping_payload}
use pktauth.Ping.Streams.{Stream}
use pktauth.Ping.Echo.{IsFaithful}
use pktauth.Ping.Tests.{near, far, near-IsFaithful}
use pktauth.Programs.Pinging.{Pinging}
use pktauth.Programs.Summary.{Summary}
use pktauth.Programs.Summary.Pinged.{Summarises}
use pktauth.Programs.Tests.{client_args, no_packets}
use pktauth.Programs.ClientMain.{connected, pinged, closed, waited, printed, connect_and_ping}
use pktauth.Programs.ClientMain.Tests.{answering}
use pktauth.Programs.Lossless.{timed_ping, rtts_to, connect_and_ping-Lossless}

abbrev payload_or_none : Run (List ℕ) → List ℕ
payload_or_none (done payload) = payload
payload_or_none panic = []

abbrev serving : ℕ → Stream
serving seq = far (payload_or_none (ping_payload seq 64))

serving-IsFaithful :
    (seq : ℕ) (payload : List ℕ)
    → ping_payload seq 64 ≡ done payload
    → IsFaithful payload near (serving seq)
serving-IsFaithful seq payload made = rw made (near-IsFaithful payload)

abbrev a_millisecond : ℕ → ℕ
a_millisecond seq = 1000000

connect_and_ping-Lossless_example :
    (s : Pinging) × (summary : Summary) × (connect_and_ping
        (record answering { ping = timed_ping (λ seq. ok near) a_millisecond })
        client_args
        6
      ≡ record {
        log =
            connected client_args.server ∷ pinged (some s) ∷ closed ∷ waited ∷ printed summary ∷ [];
        exit = returned tt;
      })
    × (summary.loss_pct.numerator ≡ 0)
    × Summarises 5 (rtts_to a_millisecond 5) no_packets summary
connect_and_ping-Lossless_example =
    connect_and_ping-Lossless (λ seq. near) serving a_millisecond 64 (omega arith)
      serving-IsFaithful answering client_args client_args.server refl (omega arith) (omega arith)
      (λ seq. omega arith) refl refl
