-- ===== src/Blaster/Main/Ends.antt =====
-- The ends of `main`, against what it starts.
use pktauth.Blaster.Main.Threads.{
  launches, joining, Launched, all_launched, cut_short, launch-Launched, join_all-lem,
}
use pktauth.Base.{ℕ, ◌+◌, List, [], ◌∷◌, ◌++◌, ◌≡◌, refl, sym, ap, ◌∙◌, arith, length}
use pktauth.Base.{◌>>=◌ as ◌>>>=◌}
use pktauth.Base.{Run, done, panic, Result, ok, err}
use pktauth.Base.Actions.{returned as returns, failed, panicked, act, ◌>>=◌, ◌>>◌, try_with, run}
use pktauth.Socket.Counters.{ErrorKind}
use pktauth.Blaster.Template.{InitialTemplate, TemplateError, new}
use pktauth.Blaster.Rates.{threads, per_thread_pps}
use pktauth.Blaster.Blast.{BlastError, io, template}
use pktauth.Blaster.Startup.{Args, Started, first_seed, start_workers, startup}
use pktauth.Blaster.Main.{Ended, time_over, interrupted, World, Doing}
use pktauth.Blaster.Main.{announced, reporting, cleared, aborted, printed}
use pktauth.Blaster.Main.{wait, launch, join_all, wait_and_join, blaster_main}

abbrev pub over : Ended → Result (Unit {0}) ErrorKind
over time_over = ok tt
over (interrupted answer) = answer

module _ (world : World) (args : Args) where
  abbrev count : ℕ
  count = threads args.threads world.available

  abbrev started : Run (Result Started BlastError)
  started = startup args world.available world.spawn

  -- The ends of `main`, by that of `startup`: nothing is done where that fails on the template; the
  -- threads before the one that could not be started; and otherwise exactly the threads, rates and
  -- seeds of `startup`, then the wait, whose error ends it, and then the joins and the summary.
  pub data Ends : Doing (Unit {0}) → Type 0 where
    refused :
        (e : TemplateError)
        → started ≡ done (err (template e))
        → Ends (record { log = []; exit = failed (template e) })
    crashed : started ≡ panic → Ends (record { log = []; exit = panicked })
    unstarted :
        (rate : ℕ) (seeds : List ℕ) (kind : ErrorKind)
        → started ≡ done (err (io kind))
        → world.spawn (length seeds) ≡ err kind
        → Ends (record {
          log = announced args.size count args.pps ∷ launches rate 0 seeds;
          exit = failed (io kind);
        })
    unsignalled :
        (s : Started) (kind : ErrorKind)
        → started ≡ done (ok s)
        → over world.ended ≡ err kind
        → Ends (record {
          log =
              announced args.size count args.pps ∷ (launches s.rate 0 s.seeds ++ (reporting ∷ []));
          exit = failed (io kind);
        })
    finished :
        (s : Started)
        → started ≡ done (ok s)
        → length s.seeds ≡ count
        → over world.ended ≡ ok tt
        → Ends (record {
          log =
              announced args.size count args.pps
              ∷ (launches s.rate 0 s.seeds
                  ++ (reporting
                      ∷ cleared
                      ∷ aborted
                      ∷ (joining world.join 0 count ++ (printed world.stats ∷ []))));
          exit = returns tt;
        })

  after_launch : ℕ → Doing (Unit {0}) → Doing (Unit {0})
  after_launch rate m = act (announced args.size count args.pps) >> (m >> wait_and_join world count)

  built : ℕ → Result (List ℕ) ErrorKind → Run (Result Started BlastError)
  built rate workers = done (elim workers [
    | err kind ↦ err (io kind)
    | ok seeds ↦ ok (record { rate = rate; seeds = seeds })
  ])

  module _ (rate : ℕ) (seeds : List ℕ) where
    wait_then : Result (Unit {0}) ErrorKind → Doing (Unit {0})
    wait_then answer =
        act (announced args.size count args.pps)
        >> (record { log = launches rate 0 seeds; exit = returns tt }
            >> (act reporting
                >> (try_with io answer
                    >> (act cleared
                        >> (act aborted
                            >> (join_all world 0 count >> act (printed world.stats)))))))

    wait_then-Ends :
        (answer : Result (Unit {0}) ErrorKind)
        → started ≡ done (ok (record { rate = rate; seeds = seeds }))
        → length seeds ≡ count
        → over world.ended ≡ answer
        → Ends (wait_then answer)
    unfolding wait_then
    wait_then-Ends (err kind) e size ends =
        unsignalled (record { rate = rate; seeds = seeds }) kind e ends
    wait_then-Ends (ok _) e size ends =
        rw (join_all-lem world 0 count)
          (finished (record { rate = rate; seeds = seeds }) e size ends)

    wait-over : (ended : Ended) → wait ended ≡ try_with io (over ended)
    wait-over time_over = refl
    wait-over (interrupted answer) = refl

  after_launch-Ends :
      (rate : ℕ) {workers : Result (List ℕ) ErrorKind} {m : Doing (Unit {0})}
      → started ≡ built rate workers
      → Launched world rate 0 count workers m
      → Ends (after_launch rate m)
  unfolding after_launch built wait_and_join wait_then
  after_launch-Ends rate e (cut_short seeds kind h) =
      let place : 0 + length seeds ≡ length seeds = omega arith in
      unstarted rate seeds kind e (sym (ap world.spawn place) ∙ h)
  after_launch-Ends rate e (all_launched seeds size) =
      rw (wait-over rate seeds world.ended)
        (wait_then-Ends rate seeds (over world.ended) e size refl)

  paced_at : Run ℕ → Doing (Unit {0})
  paced_at answer = run answer >>= λ rate. after_launch rate (launch world rate 0 count first_seed)

  after_template : Run (Result InitialTemplate TemplateError) → Doing (Unit {0})
  after_template tried =
      run tried >>= λ made. try_with template made >>= λ _. paced_at (per_thread_pps args.pps count)

  -- `startup` from the rate on.
  started_at : Run ℕ → Run (Result Started BlastError)
  started_at answer = answer >>>= λ rate. built rate (start_workers world.spawn 0 count first_seed)

  paced_at-Ends : (rate : Run ℕ) → started ≡ started_at rate → Ends (paced_at rate)
  unfolding paced_at started_at
  paced_at-Ends panic e = crashed e
  paced_at-Ends (done rate) e =
      after_launch-Ends rate e (launch-Launched world rate 0 count first_seed)

  after_template-Ends :
      (tried : Run (Result InitialTemplate TemplateError))
      → new args.size ≡ tried
      → Ends (after_template tried)
  unfolding after_template started_at built startup
  after_template-Ends panic e = crashed (rw e refl)
  after_template-Ends (done (err failure)) e = refused failure (rw e refl)
  after_template-Ends (done (ok initial)) e =
      paced_at-Ends (per_thread_pps args.pps count) (rw e refl)

  -- `main` does what `startup` says, whatever is answered to it: nothing where `startup` fails on the
  -- template or panics; where a thread cannot be started, it has started those before it and passes
  -- its error on; and otherwise it starts exactly the threads, with the rate and the seeds, of
  -- `startup`, and waits. Where waiting fails, it passes the error on; else it clears the flag, stops
  -- the reporter, joins every thread with a line for each that did not end well, and prints what the
  -- statistics then hold.
  pub blaster_main-Ends : Ends (blaster_main world args)
  unfolding blaster_main after_template paced_at after_launch
  blaster_main-Ends = after_template-Ends (new args.size) refl
