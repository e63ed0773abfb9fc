-- ===== src/Ping/Server/Tests.antt =====
-- A client whose handshake fails and one that stalls beside one that pings and closes.
use pktauth.Base.{set, none, false, [], ◌∷◌, ◌⊎◌, refl, true, ok, err}
use pktauth.Ping.Streams.{Stream, application_closed, other}
use pktauth.Ping.Server.{Incoming, Service, Server, serving, dropped}
use pktauth.Ping.Server.{
  Turn, established, refused, opened, accept, turn, Step, Reach, start, later,
}
use pktauth.Ping.Server.Isolated.{IsIsolated, IsSettled, Reach-IsIsolated}

abbrev echoing : Stream
echoing = record {
  read_to_end = λ limit. ok (1 ∷ 2 ∷ []);
  write_all = λ bytes. ok tt;
  finish = λ bytes. ok tt;
}

abbrev failing : Incoming
failing = record { handshake = err other; answers = []; finishes = λ j. true }

abbrev pinging : Incoming
pinging = record {
  handshake = ok tt;
  answers = ok echoing ∷ err application_closed ∷ [];
  finishes = λ j. true;
}

-- It opens a stream and never finishes it.
abbrev stalling : Incoming
stalling = record { handshake = ok tt; answers = ok echoing ∷ []; finishes = λ j. false }

abbrev stalled : Service
stalled = record {
  incoming = stalling;
  phase = serving [];
  tasks = record { stream = echoing; outcome = none } ∷ [];
}

-- The stream of this one is not echoed yet.
abbrev pinged : Service
pinged = record {
  incoming = pinging;
  phase = serving (err application_closed ∷ []);
  tasks = record { stream = echoing; outcome = none } ∷ [];
}

abbrev three_served : Server
three_served = record {
  accepting = true;
  services = record { incoming = failing; phase = dropped; tasks = [] } ∷ stalled ∷ pinged ∷ [];
}

-- The failed handshake comes last.
three_served-Reach : Reach three_served
three_served-Reach =
    let r1 = later start (accept failing refl) in
    let r2 = later r1 (accept stalling refl) in
    let r3 = later r2 (accept pinging refl) in
    let r4 = later r3 (turn 1 _ _ refl (established refl refl)) in
    let r5 = later r4 (turn 2 _ _ refl (established refl refl)) in
    let r6 = later r5 (turn 1 _ _ refl (opened echoing [] refl)) in
    let r7 = later r6 (turn 2 _ _ refl (opened echoing (err application_closed ∷ []) refl)) in
    later r7 (turn 0 _ _ refl (refused other refl refl))

-- The last connection moves beside the stalled one.
Reach-IsIsolated_example :
    IsIsolated pinged
    × (IsSettled pinged
        ⊎ ((c : Service) × Turn pinged c
            × Step three_served (record three_served { services = set three_served.services 2 c })))
Reach-IsIsolated_example = Reach-IsIsolated three_served 2 pinged three_served-Reach refl
