-- ===== src/Blaster/Report/Adds.antt =====
-- The lines of `report` add up to the counters.
use pktauth.Base.{ℕ, ◌+◌, ◌-◌, ◌≤◌, List, ◌∷◌, ◌≡◌, refl, arith, done, le→leb, subst}
use pktauth.Blaster.Workers.{Blaster, Reach, Steps}
use pktauth.Blaster.Workers.Total.{total}
use pktauth.Blaster.Workers.Monotone.{FitsCounters, Steps-Reach, Steps-earlier, Steps-AtMost}
use pktauth.Blaster.Report.{Reporter, Line, checked_sub, report_line, Reports, begun, tick}

abbrev pub printed_packets : List Line → ℕ
printed_packets lines = total (λ line. line.packets) lines

abbrev pub printed_bytes : List Line → ℕ
printed_bytes lines = total (λ line. line.bytes) lines

-- What a line says when these were loaded for it.
pub record Adds (loaded_sent loaded_bytes : ℕ) (lines : List Line) (line : Line) : Type 0 where
  pub packets : line.packets + printed_packets lines ≡ loaded_sent
  pub bytes : line.bytes + printed_bytes lines ≡ loaded_bytes
  pub all : line.total ≡ loaded_sent

checked_sub-done : (m n : ℕ) → n ≤ m → checked_sub m n ≡ done (m - n)
checked_sub-done m n h = rw (le→leb n m h) refl

report_line-done :
    (sent bytes : ℕ) (r : Reporter)
    → r.last_sent ≤ sent
    → r.last_bytes ≤ bytes
    → report_line sent bytes r
      ≡ done (
        record { packets = sent - r.last_sent; bytes = bytes - r.last_bytes; total = sent },
        record { last_sent = sent; last_bytes = bytes },
      )
unfolding report_line
report_line-done sent bytes r h k =
    rw (checked_sub-done sent r.last_sent h, checked_sub-done bytes r.last_bytes k) refl

module _ (to_ne_bytes : ℕ → List ℕ) where
  -- What the reporter holds was printed, and the counters are at least that.
  record IsBehind (s : Blaster) (r : Reporter) (lines : List Line) : Type 0 where
    reached : Reach to_ne_bytes s
    packets : printed_packets lines ≡ r.last_sent
    bytes : printed_bytes lines ≡ r.last_bytes
    sent_before : r.last_sent ≤ s.shared.stats.sent
    bytes_before : r.last_bytes ≤ s.shared.stats.bytes

  next_line :
      {s t u : Blaster} {n m : ℕ} {r : Reporter} {lines : List Line}
      → IsBehind s r lines
      → Steps to_ne_bytes s n t
      → Steps to_ne_bytes t m u
      → FitsCounters u.shared
      → (line : Line) × (report_line t.shared.stats.sent u.shared.stats.bytes r
          ≡ done
              (line, record { last_sent = t.shared.stats.sent; last_bytes = u.shared.stats.bytes }))
        × Adds t.shared.stats.sent u.shared.stats.bytes lines line
        × IsBehind u
            (record { last_sent = t.shared.stats.sent; last_bytes = u.shared.stats.bytes })
            (line ∷ lines)
  next_line {t = t} {u = u} {r = r} b run run' f =
      let reached = Steps-Reach to_ne_bytes run b.reached in
      let first = Steps-AtMost to_ne_bytes b.reached run (Steps-earlier to_ne_bytes run' f) in
      let second = Steps-AtMost to_ne_bytes reached run' f in
      let sent_more : r.last_sent ≤ t.shared.stats.sent =
        omega (arith, b.sent_before, first.sent) in
      let bytes_more : r.last_bytes ≤ u.shared.stats.bytes =
        omega (arith, b.bytes_before, first.bytes, second.bytes) in
      (
        _,
        report_line-done t.shared.stats.sent u.shared.stats.bytes r sent_more bytes_more,
        record { packets = omega (arith, b.packets); bytes = omega (arith, b.bytes); all = refl },
        record {
          reached = Steps-Reach to_ne_bytes run' reached;
          packets = omega (arith, b.packets);
          bytes = omega (arith, b.bytes);
          sent_before = second.sent;
          bytes_before = omega arith;
        },
      )

  Reports-IsBehind :
      {s : Blaster} {r : Reporter} {lines : List Line}
      → Reports to_ne_bytes s r lines
      → FitsCounters s.shared
      → IsBehind s r lines
  Reports-IsBehind (begun reached) f = record {
    reached = reached;
    packets = refl;
    bytes = refl;
    sent_before = omega arith;
    bytes_before = omega arith;
  }
  Reports-IsBehind (tick {t = t} {u = u} {r' = r'} {lines = lines} {line = line} reports run run' e)
        f =
      let earlier = Steps-earlier to_ne_bytes run (Steps-earlier to_ne_bytes run' f) in
      let (line', made, _, behind) = next_line (Reports-IsBehind reports earlier) run run' f in
      let loaded : Reporter = record {
        last_sent = t.shared.stats.sent;
        last_bytes = u.shared.stats.bytes;
      } in
      let same_reporter : loaded ≡ r' = cc (e, made) in
      let same_line : line' ≡ line = cc (e, made) in
      subst (λ r. IsBehind u r (line ∷ lines)) same_reporter
        (subst (λ l. IsBehind u loaded (l ∷ lines)) same_line behind)

  -- However the threads run between the loads, as long as the totals fit 64 bits: the next round of
  -- `report` does not underflow, and the lines up to it add up to the two counters as loaded.
  pub report_line-Adds :
      (s t u : Blaster) (n m : ℕ) (r : Reporter) (lines : List Line)
      → Reports to_ne_bytes s r lines
      → Steps to_ne_bytes s n t
      → Steps to_ne_bytes t m u
      → FitsCounters u.shared
      → (line : Line) × (report_line t.shared.stats.sent u.shared.stats.bytes r
          ≡ done
              (line, record { last_sent = t.shared.stats.sent; last_bytes = u.shared.stats.bytes }))
        × Adds t.shared.stats.sent u.shared.stats.bytes lines line
  report_line-Adds s t u n m r lines reports run run' f =
      let earlier = Steps-earlier to_ne_bytes run (Steps-earlier to_ne_bytes run' f) in
      let (line, made, adds, _) = next_line (Reports-IsBehind reports earlier) run run' f in
      (line, made, adds)
