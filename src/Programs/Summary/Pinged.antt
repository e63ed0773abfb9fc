-- ===== src/Programs/Summary/Pinged.antt =====
-- src/bin/client.rs: the loop of pings and the summary that follows it.
use pktauth.Base.{ap}
use pktauth.Base.{sum}
use pktauth.Base.{
  ℕ, suc, ◌+◌, ◌*◌, ◌^◌, ◌≤◌, ◌<◌, List, [], ◌∷◌, Option, none, some, ◌≡◌, refl, ◌∙◌, arith,
}
use pktauth.Base.{done, Result, ok, err, length, All, ◌==◌, false, ne→==}
use pktauth.Base.Slots.{All-snoc}
use pktauth.Socket.Counters.{PacketCounts}
use pktauth.Ping.Streams.{Error}
use pktauth.Programs.Pinging.{Pinging, started, count_ping, ping_loop}
use pktauth.Programs.Pings.{Accounted, count_ping-Accounted, ping_loop-Kept}
use pktauth.Programs.Summary.{Rtts, Summary, duration_limit, loss, print_summary, ping_and_print}
use pktauth.Programs.Summary.Figures.{AreFigures, sum-le, All-weaken, rtt_figures-AreFigures}

-- 2^32 seconds.
abbrev pub brief_limit : ℕ
brief_limit = 2 ^ 32 * 1000000000

abbrev pub IsBrief : Result ℕ Error → Type 0
IsBrief (ok rtt) = rtt < brief_limit
IsBrief (err e) = Unit

pub data FiguresOf : List ℕ → Option Rtts → Type 0 where
  no_echo : FiguresOf [] none
  echoes :
      (d : ℕ) (ds : List ℕ) (figures : Rtts)
      → AreFigures (d ∷ ds) figures
      → FiguresOf (d ∷ ds) (some figures)

-- A summary of `count` pings, of which `rtts` came back.
pub record Summarises (count : ℕ) (rtts : List ℕ) (packets : PacketCounts) (summary : Summary)
    : Type 0 where
  pub sent : summary.sent ≡ count
  pub echoed : summary.echoed ≡ length rtts
  pub echoed_le : summary.echoed ≤ count
  pub lost : summary.loss_pct.numerator + 100 * summary.echoed ≡ 100 * count
  pub all : summary.loss_pct.denominator ≡ count
  pub counts : summary.counts ≡ packets
  pub figures : FiguresOf rtts summary.rtts

-- What the rounds keep: every ping counted, and every round trip brief.
record Sane (s : Pinging) : Type 0 where
  accounted : Accounted s
  brief : All (λ rtt. rtt < brief_limit) s.rtts

count_ping-Sane :
    (outcome : Result ℕ Error) (s : Pinging)
    → IsBrief outcome
    → Sane s
    → Sane (count_ping outcome s)
count_ping-Sane (ok rtt) s h sane = record {
  accounted = count_ping-Accounted (ok rtt) s sane.accounted;
  brief = All-snoc (λ d. d < brief_limit) s.rtts rtt sane.brief h;
}
count_ping-Sane (err e) s h sane = record {
  accounted = count_ping-Accounted (err e) s sane.accounted;
  brief = sane.brief;
}

sum-fits :
    (rtts : List ℕ)
    → All (λ d. d < brief_limit) rtts
    → length rtts < 2 ^ 32
    → sum rtts < duration_limit
sum-fits rtts a few =
    let below =
      sum-le brief_limit rtts
        (All-weaken (λ d. d < brief_limit) (λ d. d ≤ brief_limit) rtts (λ x h. omega arith) a) in
    omega (arith, below)

loss-lem :
    (count lost : ℕ)
    → 0 < count
    → loss count lost ≡ record { numerator = lost * 100; denominator = count }
loss-lem count lost positive = rw (ne→== count 0 (λ z. omega (arith, z))) refl

print_summary-Summarises :
    (count lost : ℕ) (rtts : List ℕ) (counts : PacketCounts)
    → 0 < count
    → count < 2 ^ 32
    → length rtts + lost ≡ count
    → All (λ rtt. rtt < brief_limit) rtts
    → (summary : Summary) × (print_summary count rtts lost counts ≡ done summary)
      × Summarises count rtts counts summary
unfolding print_summary
print_summary-Summarises count lost [] counts positive few accounted brief = (
  _,
  refl,
  record {
    sent = refl;
    echoed = refl;
    echoed_le = omega arith;
    lost = rw (loss-lem count lost positive) (omega arith);
    all = rw (loss-lem count lost positive) refl;
    counts = refl;
    figures = no_echo;
  },
)
print_summary-Summarises count lost (d ∷ ds) counts positive few accounted brief =
    let rtts : List ℕ = d ∷ ds in
    let below : length rtts < 2 ^ 32 = omega arith in
    let (figures, made, are) = rtt_figures-AreFigures d ds below (sum-fits rtts brief below) in
    let summary : Summary = record {
      sent = count;
      echoed = length rtts;
      loss_pct = loss count lost;
      counts = counts;
      rtts = some figures;
    } in
    let some_echo : (length rtts == 0) ≡ false = ground arith in
    (
      summary,
      rw (some_echo, made) refl,
      record {
        sent = refl;
        echoed = refl;
        echoed_le = omega arith;
        lost = rw (loss-lem count lost positive) (omega arith);
        all = rw (loss-lem count lost positive) refl;
        counts = refl;
        figures = echoes d ds figures are;
      },
    )

-- The end of the loop, and what is printed of it.
pub started-Summarises :
    (ping : ℕ → List ℕ → Result ℕ Error) (count size : ℕ) (counts : PacketCounts)
    → 0 < count
    → count < 2 ^ 32
    → ((seq : ℕ) (payload : List ℕ) → IsBrief (ping seq payload))
    → (s : Pinging) × (summary : Summary) × (ping_loop ping count size (suc count) started
        ≡ done (some s))
      × (print_summary s.seq s.rtts s.lost counts ≡ done summary)
      × Summarises count s.rtts counts summary
started-Summarises ping count size counts positive few brief =
    let (s, ended, last, sane) =
      ping_loop-Kept ping size Sane
        (λ s payload made. count_ping-Sane (ping s.seq payload) s (brief s.seq payload)) count count
        started positive (record { accounted = refl; brief = tt }) (omega arith) in
    let (summary, printed, is) =
      print_summary-Summarises count s.lost s.rtts counts positive few (sane.accounted ∙ last)
        sane.brief in
    (s, summary, ended, ap (λ n. print_summary n s.rtts s.lost counts) last ∙ printed, is)

-- With a count from 1 to 2 ^ 32 - 1, and round trips below 2 ^ 32 seconds, the client ends its loop
-- and prints a summary; nothing panics. The summary has the count, the number of the pings that
-- came back, the share of the others, and, if any came back, the least, the average and the
-- greatest of exactly their round trips.
ping_and_print-Summarises :
    (ping : ℕ → List ℕ → Result ℕ Error) (count size : ℕ) (counts : PacketCounts)
    → 0 < count
    → count < 2 ^ 32
    → ((seq : ℕ) (payload : List ℕ) → IsBrief (ping seq payload))
    → (s : Pinging) × (summary : Summary) × (ping_loop ping count size (suc count) started
        ≡ done (some s))
      × (ping_and_print ping count size (suc count) counts ≡ done (some summary))
      × Summarises count s.rtts counts summary
unfolding ping_and_print
ping_and_print-Summarises ping count size counts positive few brief =
    let (s, summary, ended, printed, is) =
      started-Summarises ping count size counts positive few brief in
    (s, summary, ended, rw (ended, printed) refl, is)
