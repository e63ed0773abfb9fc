-- ===== src/Blaster/Blast/Sound.antt =====
-- What a sender thread puts on the wire, what it counts, and how it ends.
use pktauth.Base.{
  ℕ, zero, suc, ◌+◌, ◌*◌, ◌%◌, ◌^◌, ◌≤◌, ◌<◌, List, [], ◌∷◌, ◌≡◌, refl, subst, ap, arith,
}
use pktauth.Base.{
  Bool, true, false, Run, done, panic, ◌>>=◌, Result, ok, err, some, length, replicate,
}
use pktauth.Socket.Counters.{ErrorKind}
use pktauth.Base.{◌∙◌}
use pktauth.Blaster.Rng.Words.{after, after-after}
use pktauth.Blaster.Rng.{SplitMix64, next}
use pktauth.Blaster.Template.{InitialTemplate, TemplateError, below_minimum, no_datagram}
use pktauth.Blaster.Template.Outcome.{Outcome, new-Outcome, too_small, too_large, built, aborted}
use pktauth.Blaster.Template.Fresh.{fresh_cid, randomize_dcid-Redrawn}
use pktauth.Blaster.Blast.{Blasting, Stats, BlastError, template, send_one, send_batch, blast_loop}
use pktauth.Blaster.Blast.{blast, batch, count_send}
use pktauth.Blaster.Blast.Wire.{IsSound, attempts, batches}

count_send-attempts :
    (answer : Result ℕ ErrorKind) (stats : Stats)
    → attempts (count_send answer stats) % 2 ^ 64 ≡ (attempts stats + 1) % 2 ^ 64
count_send-attempts (ok n) stats = omega arith
count_send-attempts (err _) stats = omega arith

module _ (to_ne_bytes : ℕ → List ℕ) (length-to_ne_bytes : (w : ℕ) → length (to_ne_bytes w) ≡ 8)
    (send : ℕ → List ℕ → Result ℕ ErrorKind) where
  next_place :
      {rng : SplitMix64} (wire : List (List ℕ)) (seed : SplitMix64)
      → rng ≡ after (3 * length wire) seed
      → (next (next (next rng).1).1).1 ≡ after (3 * suc (length wire)) seed
  next_place wire seed e =
      let three_more : 3 * length wire + 3 ≡ 3 * suc (length wire) = omega arith in
      ap (after 3) e ∙ after-after 3 (3 * length wire) seed ∙ ap (λ n. after n seed) three_more

  send_one-IsSound :
      (size : ℕ) (seed : SplitMix64) (start : Stats) (n : ℕ) (s : Blasting)
      → IsSound to_ne_bytes size seed start n s
      → (s' : Blasting) × (send_one to_ne_bytes send s ≡ done s')
        × IsSound to_ne_bytes size seed start (suc n) s'
  unfolding send_one
  send_one-IsSound size seed start n s i =
      let drawn =
        randomize_dcid-Redrawn to_ne_bytes length-to_ne_bytes size i.dcid s.initial s.rng
          i.initial in
      let answer = send (length s.wire) drawn.redrawn.bytes in
      let s' : Blasting = record {
        initial = drawn.redrawn;
        rng = (next (next (next s.rng).1).1).1;
        stats = count_send answer s.stats;
        wire = drawn.redrawn.bytes ∷ s.wire;
      } in
      (
        s',
        rw (drawn.returned) refl,
        record {
          dcid = fresh_cid to_ne_bytes s.rng;
          initial = drawn.kept;
          handed = ap suc i.handed;
          probes = (
            (drawn.kept.size_bytes, fresh_cid to_ne_bytes s.rng, drawn.kept.size_dcid, drawn.found),
            i.probes,
          );
          laid = ((s.rng, drawn.kept.layout), i.laid);
          place = next_place s.wire seed i.place;
          drawn = (drawn.found ∙ ap (λ r. some (fresh_cid to_ne_bytes r)) i.place, i.drawn);
          counted = omega (arith, count_send-attempts answer s.stats, i.counted);
        },
      )

  send_batch-IsSound :
      (k size : ℕ) (seed : SplitMix64) (start : Stats) (n : ℕ) (s : Blasting)
      → IsSound to_ne_bytes size seed start n s
      → (s' : Blasting) × (send_batch to_ne_bytes send k s ≡ done s')
        × IsSound to_ne_bytes size seed start (k + n) s'
  unfolding send_batch
  send_batch-IsSound zero size seed start n s i =
      (s, refl, subst (λ m. IsSound to_ne_bytes size seed start m s) (omega arith) i)
  send_batch-IsSound (suc k) size seed start n s i =
      let (s', e, i') = send_one-IsSound size seed start n s i in
      let (s'', e', i'') = send_batch-IsSound k size seed start (suc n) s' i' in
      (
        s'',
        rw (e, e') refl,
        subst (λ m. IsSound to_ne_bytes size seed start m s'') (omega arith) i'',
      )

  blast_loop-IsSound :
      (running : List Bool) (size : ℕ) (seed : SplitMix64) (start : Stats) (n : ℕ) (s : Blasting)
      → IsSound to_ne_bytes size seed start n s
      → (s' : Blasting) × (blast_loop to_ne_bytes send running s ≡ done s')
        × IsSound to_ne_bytes size seed start (batches running * 64 + n) s'
  unfolding blast_loop
  blast_loop-IsSound [] size seed start n s i =
      (s, refl, subst (λ m. IsSound to_ne_bytes size seed start m s) (omega arith) i)
  blast_loop-IsSound (false ∷ running) size seed start n s i =
      (s, refl, subst (λ m. IsSound to_ne_bytes size seed start m s) (omega arith) i)
  blast_loop-IsSound (true ∷ running) size seed start n s i =
      let (s', e, i') = send_batch-IsSound batch size seed start n s i in
      let (s'', e', i'') = blast_loop-IsSound running size seed start (batch + n) s' i' in
      (
        s'',
        rw (e, e') refl,
        subst (λ m. IsSound to_ne_bytes size seed start m s'') (omega arith) i'',
      )

  -- How a thread ends that could bind and connect.
  pub data Blasted (size seed : ℕ) (running : List Bool) (start : Stats)
      : Run (Result Blasting BlastError) → Type 0 where
    refused_small :
        size < 1200 → Blasted size seed running start (done (err (template (below_minimum size))))
    refused_large :
        65535 < size → Blasted size seed running start (done (err (template (no_datagram size))))
    stopped :
        1200 ≤ size
        → size < 16434
        → (s : Blasting)
        → IsSound to_ne_bytes size (record { state = seed }) start (batches running * 64) s
        → Blasted size seed running start (done (ok s))
    crashed : 16434 ≤ size → size ≤ 65535 → Blasted size seed running start panic

  run_from :
      ℕ
      → List Bool
      → Stats
      → Run (Result InitialTemplate TemplateError)
      → Run (Result Blasting BlastError)
  run_from seed running stats made = made >>= λ r. elim r [
    | err e ↦ done (err (template e))
    | ok initial ↦
        blast_loop to_ne_bytes send running
          (record { initial = initial; rng = record { state = seed }; stats = stats; wire = [] })
        >>= λ s. done (ok s)
  ]

  run_from-Blasted :
      (size seed : ℕ) (running : List Bool) (stats : Stats)
      {made : Run (Result InitialTemplate TemplateError)}
      → Outcome size made
      → Blasted size seed running stats (run_from seed running stats made)
  unfolding run_from
  run_from-Blasted size seed running stats (too_small h) = refused_small h
  run_from-Blasted size seed running stats (too_large h) = refused_large h
  run_from-Blasted size seed running stats (aborted h k) = crashed h k
  run_from-Blasted size seed running stats (built h k initial i) =
      let begun : Blasting = record {
        initial = initial;
        rng = record { state = seed };
        stats = stats;
        wire = [];
      } in
      let sound : IsSound to_ne_bytes size (record { state = seed }) stats 0 begun = record {
        dcid = replicate 20 0;
        initial = i;
        handed = refl;
        probes = tt;
        laid = tt;
        place = refl;
        drawn = tt;
        counted = omega arith;
      } in
      let (s, e, sound') =
        blast_loop-IsSound running size (record { state = seed }) stats 0 begun sound in
      subst (Blasted size seed running stats) (rw e refl) (
        stopped h k s (
          subst (λ m. IsSound to_ne_bytes size (record { state = seed }) stats m s) (omega arith)
            sound'))

  -- A sender thread that could bind and connect: from size 1200 up to 16433 it ends when the stop
  -- flag says so, has made 64 attempts for each load that let it go on, counts each as sent or as
  -- an error, modulo 2 ^ 64, and every datagram it handed to `send` has the size asked for and a
  -- connection ID of twenty bytes where the authenticator looks, drawn from the generator's words
  -- in order. Other sizes end it at once: with
  -- an error below 1200 and above 65535, with a panic between. The words' bytes are eight each.
  pub blast-Blasted :
      (size seed : ℕ) (running : List Bool) (stats : Stats)
      → Blasted size seed running stats
          (blast to_ne_bytes send (ok tt) (ok tt) size seed running stats)
  unfolding blast run_from
  blast-Blasted size seed running stats =
      run_from-Blasted size seed running stats (new-Outcome size)

  -- A thread that ended normally.
  pub Blasted-IsSound :
      (size seed : ℕ) (running : List Bool) (stats : Stats) (s : Blasting)
      {run : Run (Result Blasting BlastError)}
      → Blasted size seed running stats run
      → run ≡ done (ok s)
      → IsSound to_ne_bytes size (record { state = seed }) stats (batches running * 64) s
  Blasted-IsSound size seed running stats s (refused_small h) e = cc
  Blasted-IsSound size seed running stats s (refused_large h) e = cc
  Blasted-IsSound size seed running stats s (crashed h k) e = cc
  Blasted-IsSound size seed running stats s (stopped h k s' sound) e =
      let same : s' ≡ s = cc e in
      subst (IsSound to_ne_bytes size (record { state = seed }) stats (batches running * 64)) same
        sound
