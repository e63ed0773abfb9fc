-- ===== src/Blaster/Main/Sums.antt =====
-- What `main` prints of the threads that it started, in whatever order they ran.
use pktauth.Base.{
  ℕ, ◌%◌, ◌^◌, List, [], ◌∷◌, ◌++◌, append_assoc, ◌≡◌, sym, ap, ◌∙◌, subst, length, replicate,
}
use pktauth.Base.{Run, done, Result, ok, All}
use pktauth.Base.Actions.{returned as returns}
use pktauth.Blaster.Template.{InitialTemplate, TemplateError, new}
use pktauth.Blaster.Template.Outcome.{
  IsInitial, Outcome, built, too_small, too_large, aborted, new-Outcome,
}
use pktauth.Blaster.Workers.{Blaster, finished as left_loop, start_state, Steps}
use pktauth.Blaster.Workers.Monotone.{Steps-Reach}
use pktauth.Blaster.Workers.Accounted.{taken, taken_bytes, refused as send_errors, Reach-Counted}
use pktauth.Blaster.Workers.{start}
use pktauth.Blaster.Startup.{Args, Started, startup}
use pktauth.Blaster.Startup.Seeds.{start_state-IsStart}
use pktauth.Blaster.Main.{
  World, Act, Doing, announced, reporting, cleared, aborted as stopped, printed, blaster_main,
}
use pktauth.Blaster.Main.Threads.{launches, joining}
use pktauth.Blaster.Main.Ends.{
  Ends, refused, crashed, unstarted, unsignalled, finished, over, blaster_main-Ends,
}

-- What `main` does where everything can be started and waiting succeeds, up to the summary.
abbrev pub before_summary : World → Args → Started → List Act
before_summary world args s =
    announced args.size (length s.seeds) args.pps
    ∷ (launches s.rate 0 s.seeds
        ++ (reporting ∷ cleared ∷ stopped ∷ joining world.join 0 (length s.seeds)))

-- The template that `new` builds is an Initial.
new-IsInitial :
    (size : ℕ) (initial : InitialTemplate) {made : Run (Result InitialTemplate TemplateError)}
    → made ≡ done (ok initial)
    → Outcome size made
    → IsInitial size (replicate 20 0) initial
new-IsInitial size initial e (too_small h) = cc
new-IsInitial size initial e (too_large h) = cc
new-IsInitial size initial e (aborted h h') = cc
new-IsInitial size initial e (built h h' initial' is) =
    let same : initial' ≡ initial = cc in subst (IsInitial size (replicate 20 0)) same is

module _ (world : World) (args : Args) (s : Started)
    (starts : startup args world.available world.spawn ≡ done (ok s))
    (waited : over world.ended ≡ ok tt) where
  Ends-finished :
      {m : Doing (Unit {0})}
      → Ends world args m
      → m ≡ record {
        log = before_summary world args s ++ (printed world.stats ∷ []);
        exit = returns tt;
      }
  Ends-finished (refused e h) = cc
  Ends-finished (crashed h) = cc
  Ends-finished (unstarted rate seeds kind h _) = cc
  Ends-finished (unsignalled _ kind _ h) = cc
  Ends-finished (finished s' h size _) =
      let same : s' ≡ s = cc in
      let front : List Act = launches s.rate 0 s.seeds in
      rw (sym size, same)
        (ap
          (λ rest. record {
            log = announced args.size (length s.seeds) args.pps ∷ rest;
            exit = returns tt;
          })
          (sym (append_assoc front _ (printed world.stats ∷ []))))

  -- Where the threads start and waiting succeeds, and however the threads that `main` starts then
  -- run: if all of them have left their loop and `main` reads the statistics that they left, it
  -- returns, having joined each of them, and prints as its last line the datagrams that `send` took,
  -- their bytes and its errors, over all threads, modulo 2 ^ 64.
  pub blaster_main-Sums :
      (to_ne_bytes : ℕ → List ℕ) (initial : InitialTemplate) (n : ℕ) (t : Blaster)
      → new args.size ≡ done (ok initial)
      → Steps to_ne_bytes (start_state initial s.seeds) n t
      → All (λ w. w.pc ≡ left_loop) t.workers
      → world.stats ≡ t.shared.stats
      → blaster_main world args ≡ record {
        log =
            before_summary world args s
            ++ (printed (record {
              sent = taken t.shared.answers % 2 ^ 64;
              bytes = taken_bytes t.shared.answers % 2 ^ 64;
              errors = send_errors t.shared.answers % 2 ^ 64;
            })
                ∷ []);
        exit = returns tt;
      }
  blaster_main-Sums to_ne_bytes initial n t made run ended read =
      let is = new-IsInitial args.size initial made (new-Outcome args.size) in
      let begins = start_state-IsStart args.size (replicate 20 0) initial s.seeds is in
      let counted =
        Reach-Counted to_ne_bytes t (Steps-Reach to_ne_bytes run (start begins)) ended in
      Ends-finished (blaster_main-Ends world args)
      ∙ ap
          (λ stats. record {
            log = before_summary world args s ++ (printed stats ∷ []);
            exit = returns tt;
          })
          (read ∙ counted)
