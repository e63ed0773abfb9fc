-- ===== src/Ping/Server.antt =====
-- src/lib.rs: `run_echo_server` with the tasks that it and `serve_connection` spawn, interleaved in
-- any order. A step is one `accept`, one answer of `accept_bi`, the end of a handshake, or an echo
-- of one stream. What a peer does is the `Incoming` that its connection begins with.
pub mod Isolated
mod Tests
use pktauth.Base.{
  ℕ, List, [], ◌∷◌, ◌++◌, ◌≡◌, Option, none, some, Bool, true, false, set, get_elem?,
}
use pktauth.Base.{Result, ok, err}
use pktauth.Ping.Streams.{
  ConnectionError, application_closed, connection_closed, locally_closed, other,
}
use pktauth.Ping.Streams.{Error, connection, Stream, echo_stream}

-- How an incoming connection's handshake ends, what `accept_bi` then answers, where the end is still
-- waiting, and for which streams, by their number, the peer does what the echo waits for.
pub record Incoming : Type 0 where
  pub handshake : Result (Unit {0}) ConnectionError
  pub answers : List (Result Stream ConnectionError)
  pub finishes : ℕ → Bool

-- The task that echoes one stream, and how it ended, if it has.
pub record EchoTask : Type 0 where
  pub stream : Stream
  pub outcome : Option (Result (List ℕ) Error)

-- Where the task of a connection stands; serving, with the answers of `accept_bi` to come.
pub data Phase : Type 0 where
  connecting : Phase
  serving : (answers : List (Result Stream ConnectionError)) → Phase
  ended : (answer : Result (Unit {0}) Error) → Phase
  dropped : Phase

pub record Service : Type 0 where
  pub incoming : Incoming
  pub phase : Phase
  pub tasks : List EchoTask

pub record Server : Type 0 where
  pub accepting : Bool
  pub services : List Service

-- How `serve_connection` ends at an error of `accept_bi`.
abbrev pub ending : ConnectionError → Result (Unit {0}) Error
ending application_closed = ok tt
ending connection_closed = ok tt
ending locally_closed = ok tt
ending other = err (connection other)

abbrev pub spawn : Incoming → Service
spawn incoming = record { incoming = incoming; phase = connecting; tasks = [] }

-- A step of the tasks of one connection.
pub data Turn (c : Service) : Service → Type 0 where
  established :
      c.phase ≡ connecting
      → c.incoming.handshake ≡ ok tt
      → Turn c (record c { phase = serving c.incoming.answers })
  refused :
      (e : ConnectionError)
      → c.phase ≡ connecting
      → c.incoming.handshake ≡ err e
      → Turn c (record c { phase = dropped })
  opened :
      (stream : Stream) (rest : List (Result Stream ConnectionError))
      → c.phase ≡ serving (ok stream ∷ rest)
      → Turn c (record c {
        phase = serving rest;
        tasks = c.tasks ++ (record { stream = stream; outcome = none } ∷ []);
      })
  closed :
      (e : ConnectionError) (rest : List (Result Stream ConnectionError))
      → c.phase ≡ serving (err e ∷ rest)
      → Turn c (record c { phase = ended (ending e) })
  echoed :
      (j : ℕ) (task : EchoTask)
      → get_elem? c.tasks j ≡ some task
      → task.outcome ≡ none
      → c.incoming.finishes j ≡ true
      → Turn c (record c {
        tasks = set c.tasks j (record task { outcome = some (echo_stream task.stream) });
      })

-- The loop of `run_echo_server` accepts or ends, or some connection's tasks move.
pub data Step (s : Server) : Server → Type 0 where
  accept :
      (incoming : Incoming)
      → s.accepting ≡ true
      → Step s (record s { services = s.services ++ (spawn incoming ∷ []) })
  close : s.accepting ≡ true → Step s (record s { accepting = false })
  turn :
      (i : ℕ) (c c' : Service)
      → get_elem? s.services i ≡ some c
      → Turn c c'
      → Step s (record s { services = set s.services i c' })

pub data Reach : Server → Type 0 where
  start : Reach (record { accepting = true; services = [] })
  later : {s t : Server} → Reach s → Step s t → Reach t
