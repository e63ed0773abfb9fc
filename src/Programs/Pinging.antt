-- ===== src/Programs/Pinging.antt =====
-- src/bin/client.rs: the loop of pings. What each ping comes to is an argument; a round trip is
-- a number of nanoseconds. The sleep between pings and printing are left out. With a count of zero
-- the loop has no end, so it runs on fuel, and `none` is a loop that the fuel did not see end.
use pktauth.Base.{
  ℕ, zero, suc, ◌+◌, List, [], ◌∷◌, ◌++◌, Option, none, some, ltb, ◌==◌, ◌||◌, if◌then◌else◌,
}
use pktauth.Base.{Run, done, ◌>>=◌, Result, ok, err}
use pktauth.Ping.Payload.{ping_payload}
use pktauth.Ping.Streams.{Error}

pub record Pinging : Type 0 where
  pub seq : ℕ
  pub rtts : List ℕ
  pub lost : ℕ

abbrev pub started : Pinging
started = record { seq = 0; rtts = []; lost = 0 }

-- One ping of the loop, by its outcome.
abbrev pub count_ping : Result ℕ Error → Pinging → Pinging
count_ping (ok rtt) s = record { seq = s.seq + 1; rtts = s.rtts ++ (rtt ∷ []); lost = s.lost }
count_ping (err _) s = record { seq = s.seq + 1; rtts = s.rtts; lost = s.lost + 1 }

module _ (ping : ℕ → List ℕ → Result ℕ Error) (count size : ℕ) where
  unfoldable pub ping_loop : ℕ → Pinging → Run (Option Pinging)
  ping_loop zero s = done none
  ping_loop (suc fuel) s =
      let rest =
        ping_payload s.seq size >>= λ payload. ping_loop fuel (count_ping (ping s.seq payload) s) in
      if (count == 0) || ltb s.seq count then rest else done (some s)
