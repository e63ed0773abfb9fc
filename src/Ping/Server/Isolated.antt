-- ===== src/Ping/Server/Isolated.antt =====
-- Each connection is served as if it were alone.
use pktauth.Base.{
  ℕ, zero, suc, List, [], ◌∷◌, ◌++◌, map, ◌≡◌, ◌⊎◌, inl, inr, refl, sym, ap, ◌∙◌, subst,
}
use pktauth.Base.{
  Bool, true, false, Bool-cases, none, some, set, get_elem?, All, Result, ok, err, Result-cases,
}
use pktauth.Base.Slots.{All-set, All-snoc, All-get_elem?}
use pktauth.Socket.Counters.{ready}
use pktauth.Ping.Streams.{ConnectionError}
use pktauth.Ping.Streams.{Error, Stream, echo_stream, serve_connection}
use pktauth.Ping.Echo.{Ending, by_application, by_peer, by_us, by_failure, serve_connection-Ending}
use pktauth.Ping.Server.{
  Incoming, EchoTask, Phase, connecting, serving, ended, dropped, Service, Server, ending, spawn,
}
use pktauth.Ping.Server.{
  Turn, established, refused, opened, closed, echoed, accept, close, turn, Step, Reach, start,
  later,
}

abbrev pub streams : List EchoTask → List Stream
streams [] = []
streams (task ∷ tasks) = task.stream ∷ streams tasks

-- A task has not ended, or as the echo of its stream does.
abbrev pub IsEcho : EchoTask → Type 0
IsEcho task = (task.outcome ≡ none) ⊎ (task.outcome ≡ some (echo_stream task.stream))

-- The phase of a connection and the streams echoed for it, by what its peer does alone.
pub data Alone (incoming : Incoming) : Phase → List Stream → Type 0 where
  not_yet : Alone incoming connecting []
  turned_away : (e : ConnectionError) → incoming.handshake ≡ err e → Alone incoming dropped []
  in_service :
      (opened_so_far : List Stream) (rest : List (Result Stream ConnectionError))
      → incoming.handshake ≡ ok tt
      → incoming.answers ≡ map ok opened_so_far ++ rest
      → Alone incoming (serving rest) opened_so_far
  served :
      (answer : Result (Unit {0}) Error) (all : List Stream)
      → incoming.handshake ≡ ok tt
      → serve_connection incoming.answers ≡ (ready answer, all)
      → Alone incoming (ended answer) all

pub record IsIsolated (c : Service) : Type 0 where
  pub alone : Alone c.incoming c.phase (streams c.tasks)
  pub echoes : All IsEcho c.tasks

-- Nothing is left to do until the peer does something: the connection is over, or `accept_bi` is
-- waiting; and every echo has ended, or is waiting for the peer.
pub data IsSettled (c : Service) : Type 0 where
  settled :
      (c.phase ≡ dropped)
        ⊎ ((answer : Result (Unit {0}) Error) × (c.phase ≡ ended answer))
        ⊎ (c.phase ≡ serving [])
      → ((j : ℕ) (task : EchoTask)
          → get_elem? c.tasks j ≡ some task
          → (task.outcome ≡ some (echo_stream task.stream)) ⊎ (c.incoming.finishes j ≡ false))
      → IsSettled c

streams-append : (xs ys : List EchoTask) → streams (xs ++ ys) ≡ streams xs ++ streams ys
streams-append [] ys = refl
streams-append (x ∷ xs) ys = ap (λ t. x.stream ∷ t) (streams-append xs ys)

streams-set :
    (tasks : List EchoTask) (j : ℕ) (task task' : EchoTask)
    → get_elem? tasks j ≡ some task
    → task'.stream ≡ task.stream
    → streams (set tasks j task') ≡ streams tasks
streams-set [] j task task' e same = refl
streams-set (x ∷ xs) zero task task' e same =
    let first : x ≡ task = cc e in ap (λ t. t ∷ streams xs) (same ∙ sym (ap (λ k. k.stream) first))
streams-set (x ∷ xs) (suc j) task task' e same =
    ap (λ t. x.stream ∷ t) (streams-set xs j task task' e same)

serve_connection-ending :
    (all : List Stream) (e : ConnectionError) (rest : List (Result Stream ConnectionError))
    → serve_connection (map ok all ++ (err e ∷ rest)) ≡ (ready (ending e), all)
serve_connection-ending all e rest =
    let (answer, run, ends) = serve_connection-Ending all e rest in
    run ∙ ap (λ a. (ready a, all)) (by_ending ends)
  where
    by_ending :
        {e : ConnectionError} {answer : Result (Unit {0}) Error}
        → Ending e answer
        → answer ≡ ending e
    by_ending by_application = refl
    by_ending by_peer = refl
    by_ending by_us = refl
    by_ending by_failure = refl

oks-snoc :
    (all : List Stream) (stream : Stream) (rest : List (Result Stream ConnectionError))
    → map ok all ++ (ok stream ∷ rest) ≡ map ok (all ++ (stream ∷ [])) ++ rest
oks-snoc [] stream rest = refl
oks-snoc (x ∷ xs) stream rest = ap (λ t. ok x ∷ t) (oks-snoc xs stream rest)

-- The next stream, and the end, of a connection in service.
Alone-opened :
    (incoming : Incoming) (stream : Stream) (rest : List (Result Stream ConnectionError))
    {phase : Phase} {all : List Stream}
    → phase ≡ serving (ok stream ∷ rest)
    → Alone incoming phase all
    → Alone incoming (serving rest) (all ++ (stream ∷ []))
Alone-opened incoming stream rest at not_yet = cc at
Alone-opened incoming stream rest at (turned_away e h) = cc at
Alone-opened incoming stream rest at (served answer _ h e) = cc at
Alone-opened incoming stream rest at (in_service all left h e) =
    let here : left ≡ ok stream ∷ rest = cc at in
    in_service (all ++ (stream ∷ [])) rest h
      (e ∙ ap (λ t. map ok all ++ t) here ∙ oks-snoc all stream rest)

Alone-closed :
    (incoming : Incoming) (e : ConnectionError) (rest : List (Result Stream ConnectionError))
    {phase : Phase} {all : List Stream}
    → phase ≡ serving (err e ∷ rest)
    → Alone incoming phase all
    → Alone incoming (ended (ending e)) all
Alone-closed incoming e rest at not_yet = cc at
Alone-closed incoming e rest at (turned_away _ h) = cc at
Alone-closed incoming e rest at (served answer _ h _) = cc at
Alone-closed incoming e rest at (in_service all left h so_far) =
    let here : left ≡ err e ∷ rest = cc at in
    served (ending e) all h (
      ap serve_connection (so_far ∙ ap (λ t. map ok all ++ t) here)
      ∙ serve_connection-ending all e rest)

-- Nothing was opened during the handshake.
Alone-connecting :
    (incoming : Incoming) {phase : Phase} {all : List Stream}
    → phase ≡ connecting
    → Alone incoming phase all
    → all ≡ []
Alone-connecting incoming at not_yet = refl
Alone-connecting incoming at (turned_away _ h) = cc
Alone-connecting incoming at (served answer _ h _) = cc
Alone-connecting incoming at (in_service all left h e) = cc

Turn-IsIsolated : (c c' : Service) → Turn c c' → IsIsolated c → IsIsolated c'
Turn-IsIsolated c c' (established at shaken) i = record {
  alone =
      subst (Alone c.incoming (serving c.incoming.answers))
        (sym (Alone-connecting c.incoming at i.alone))
        (in_service [] c.incoming.answers shaken refl);
  echoes = i.echoes;
}
Turn-IsIsolated c c' (refused e at failed) i = record {
  alone =
      subst (Alone c.incoming dropped) (sym (Alone-connecting c.incoming at i.alone))
        (turned_away e failed);
  echoes = i.echoes;
}
Turn-IsIsolated c c' (opened stream rest at) i =
    let task : EchoTask = record { stream = stream; outcome = none } in
    record {
      alone =
          subst (Alone c.incoming (serving rest)) (sym (streams-append c.tasks (task ∷ [])))
            (Alone-opened c.incoming stream rest at i.alone);
      echoes = All-snoc IsEcho c.tasks task i.echoes (inl refl);
    }
Turn-IsIsolated c c' (closed e rest at) i = record {
  alone = Alone-closed c.incoming e rest at i.alone;
  echoes = i.echoes;
}
Turn-IsIsolated c c' (echoed j task at waits _) i =
    let task' : EchoTask = record task { outcome = some (echo_stream task.stream) } in
    record {
      alone =
          subst (Alone c.incoming c.phase) (sym (streams-set c.tasks j task task' at refl)) i.alone;
      echoes = All-set IsEcho c.tasks j task' i.echoes (inr refl);
    }

Reach-All : (s : Server) → Reach s → All IsIsolated s.services
Reach-All s start = tt
Reach-All s (later {s = t} r (accept incoming on)) =
    All-snoc IsIsolated t.services (spawn incoming) (Reach-All t r)
      (record { alone = not_yet; echoes = tt })
Reach-All s (later {s = t} r (close on)) = Reach-All t r
Reach-All s (later {s = t} r (turn i c c' at moved)) =
    let before = Reach-All t r in
    All-set IsIsolated t.services i c' before
      (Turn-IsIsolated c c' moved (All-get_elem? IsIsolated t.services i before at))

-- A task that has not ended and whose peer does its part, if there is one.
next_task :
    (finishes : ℕ → Bool) (tasks : List EchoTask)
    → All IsEcho tasks
    → ((j : ℕ) (task : EchoTask)
        → get_elem? tasks j ≡ some task
        → (task.outcome ≡ some (echo_stream task.stream)) ⊎ (finishes j ≡ false))
      ⊎ ((j : ℕ) × (task : EchoTask) × (get_elem? tasks j ≡ some task)
          × (task.outcome ≡ none)
          × (finishes j ≡ true))
next_task finishes [] a = inl (λ j task at. cc)
next_task finishes (first ∷ tasks) a = elim (next_task (λ j. finishes (suc j)) tasks a.1) [
  | inr found ↦ let (j, task, at, waits, lets) = found in inr (suc j, task, at, waits, lets)
  | inl others ↦ elim (first_rests finishes first a.0) [
    | inr moves ↦ inr (0, first, refl, moves.0, moves.1)
    | inl rests ↦ inl (at_first finishes first tasks rests others)
  ]
]
  where
    first_rests :
        (finishes : ℕ → Bool) (first : EchoTask)
        → IsEcho first
        → ((first.outcome ≡ some (echo_stream first.stream)) ⊎ (finishes 0 ≡ false))
          ⊎ ((first.outcome ≡ none) × (finishes 0 ≡ true))
    first_rests finishes first (inr over) = inl (inl over)
    first_rests finishes first (inl waits) = elim (Bool-cases (finishes 0)) [
      | inl lets ↦ inr (waits, lets)
      | inr holds ↦ inl (inr holds)
    ]

    at_first :
        (finishes : ℕ → Bool) (first : EchoTask) (tasks : List EchoTask)
        → (first.outcome ≡ some (echo_stream first.stream)) ⊎ (finishes 0 ≡ false)
        → ((j : ℕ) (task : EchoTask)
            → get_elem? tasks j ≡ some task
            → (task.outcome ≡ some (echo_stream task.stream)) ⊎ (finishes (suc j) ≡ false))
        → (j : ℕ) (task : EchoTask) → get_elem? (first ∷ tasks) j ≡ some task
        → (task.outcome ≡ some (echo_stream task.stream)) ⊎ (finishes j ≡ false)
    at_first finishes first tasks rests others zero task at =
        let same : first ≡ task = cc in
        subst (λ t. (t.outcome ≡ some (echo_stream t.stream)) ⊎ (finishes 0 ≡ false)) same rests
    at_first finishes first tasks rests others (suc j) task at = others j task at

next_phase :
    (c : Service) (phase : Phase)
    → c.phase ≡ phase
    → ((c' : Service) × Turn c c')
      ⊎ ((c.phase ≡ dropped)
          ⊎ ((answer : Result (Unit {0}) Error) × (c.phase ≡ ended answer))
          ⊎ (c.phase ≡ serving []))
next_phase c connecting at = elim (Result-cases c.incoming.handshake) [
  | inl (shaken, e) ↦ inl (_, established at e)
  | inr (failure, e) ↦ inl (_, refused failure at e)
]
next_phase c (serving []) at = inr (inr (inr at))
next_phase c (serving (ok stream ∷ rest)) at = inl (_, opened stream rest at)
next_phase c (serving (err e ∷ rest)) at = inl (_, closed e rest at)
next_phase c (ended answer) at = inr (inr (inl (answer, at)))
next_phase c dropped at = inr (inl at)

-- However the connections and their echoes interleave: what was opened for a connection, how its
-- task ended, and what each echo came to, is what its own peer leads to, as `serve_connection` and
-- `echo_stream` say alone. And in every state that the server can come to, whatever the other
-- connections and their echoes wait for, a step of the server moves this connection and nothing else,
-- unless it is settled: it is over or `accept_bi` waits, and each of its echoes has ended or waits for
-- the peer.
pub Reach-IsIsolated :
    (s : Server) (i : ℕ) (c : Service)
    → Reach s
    → get_elem? s.services i ≡ some c
    → IsIsolated c
      × (IsSettled c
          ⊎ ((c' : Service) × Turn c c' × Step s (record s { services = set s.services i c' })))
Reach-IsIsolated s i c r at =
    let isolated = All-get_elem? IsIsolated s.services i (Reach-All s r) at in
    (
      isolated,
      elim (next_phase c c.phase refl) [
        | inl moves ↦ inr (moves.0, moves.1, turn i c moves.0 at moves.1)
        | inr rests ↦ elim (next_task c.incoming.finishes c.tasks isolated.echoes) [
          | inl all_rest ↦ inl (settled rests all_rest)
          | inr found ↦
              let (j, task, there, waits, lets) = found in
              let moves : Turn c _ = echoed j task there waits lets in
              inr (_, moves, turn i c _ at moves)
        ]
      ],
    )
