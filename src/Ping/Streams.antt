-- ===== src/Ping/Streams.antt =====
-- src/lib.rs: `echo_stream`, `serve_connection` and `ping`. What Quinn's streams do is an argument.
-- The errors of third-party types carry no payload here, and the round-trip time that `ping`
-- returns is the unit.
use pktauth.Base.{
  ℕ, ◌*◌, List, [], ◌∷◌, Bool, true, false, ◌&&◌, ◌==◌, not, Result, ok, err, if◌then◌else◌,
}
use pktauth.Socket.Counters.{Poll, ready, pending}

abbrev pub max_ping_bytes : ℕ
max_ping_bytes = 64 * 1024

-- `ConnectionError`; `other` is every case that the code does not name.
pub data ConnectionError : Type 0 where
  application_closed connection_closed locally_closed other : ConnectionError

-- The cases of `Error` that the ping protocol meets.
pub data Error : Type 0 where
  connection : ConnectionError → Error
  write read closed_stream : Error
  echo_mismatch : List ℕ → List ℕ → Error

-- `==` of byte vectors.
abbrev pub same_bytes : List ℕ → List ℕ → Bool
same_bytes [] [] = true
same_bytes [] (y ∷ ys) = false
same_bytes (x ∷ xs) [] = false
same_bytes (x ∷ xs) (y ∷ ys) = (x == y) && same_bytes xs ys

-- A bidirectional stream that a peer opened: what `read_to_end` gives at a limit, what `write_all`
-- answers to some bytes, and what `finish` answers after them.
pub record Stream : Type 0 where
  pub read_to_end : ℕ → Result (List ℕ) Error
  pub write_all : List ℕ → Result (Unit {0}) Error
  pub finish : List ℕ → Result (Unit {0}) Error

-- The result, and the bytes that were written and finished.
unfoldable pub echo_stream : Stream → Result (List ℕ) Error
echo_stream stream = elim (stream.read_to_end max_ping_bytes) [
  | err e ↦ err e
  | ok payload ↦ elim (stream.write_all payload) [
    | err e ↦ err e
    | ok _ ↦ elim (stream.finish payload) [ err e ↦ err e | ok _ ↦ ok payload ]
  ]
]

-- A stream that this end opens: what `write_all` and `finish` answer, and what `read_to_end` then
-- gives at a limit.
pub record Opened : Type 0 where
  pub write_all : List ℕ → Result (Unit {0}) Error
  pub finish : List ℕ → Result (Unit {0}) Error
  pub read_to_end : List ℕ → ℕ → Result (List ℕ) Error

unfoldable pub ping : Result Opened ConnectionError → List ℕ → Result (Unit {0}) Error
ping (err e) payload = err (connection e)
ping (ok stream) payload = elim (stream.write_all payload) [
  | err e ↦ err e
  | ok _ ↦ elim (stream.finish payload) [
    | err e ↦ err e
    | ok _ ↦ elim (stream.read_to_end payload max_ping_bytes) [
      | err e ↦ err e
      | ok echoed ↦
          if not (same_bytes echoed payload) then err (echo_mismatch payload echoed) else ok tt
    ]
  ]
]

-- `serve_connection` over the answers of `accept_bi`, where the end is still waiting: how it
-- returns, and the streams whose echo it spawned, in order.
unfoldable pub serve_connection :
    List (Result Stream ConnectionError) → Poll (Result (Unit {0}) Error) × List Stream
serve_connection [] = (pending, [])
serve_connection (ok stream ∷ answers) =
    let (answer, spawned) = serve_connection answers in (answer, stream ∷ spawned)
serve_connection (err application_closed ∷ _) = (ready (ok tt), [])
serve_connection (err connection_closed ∷ _) = (ready (ok tt), [])
serve_connection (err locally_closed ∷ _) = (ready (ok tt), [])
serve_connection (err other ∷ _) = (ready (err (connection other)), [])
