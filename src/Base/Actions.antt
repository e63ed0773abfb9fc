-- ===== src/Base/Actions.antt =====
-- Programs that do things to the world: an action appends what it does to a log, and ends with a
-- value, with an error that `?` passes on, or with a panic.
use mathlib.Core.Bool.{Bool, true, false}
use mathlib.Core.List.{List, [], ◌∷◌, ◌++◌}
use pktauth.Base.Panics.{Run, done, panic}
use pktauth.Base.Fallible.{Result, ok, err}

pub data Exit (E A : Type 0) : Type 0 where
  returned : A → Exit E A
  failed : E → Exit E A
  panicked : Exit E A

-- What was done, first to last, and how it ended.
pub record Ran (L E A : Type 0) : Type 0 where
  pub log : List L
  pub exit : Exit E A

abbrev pub pure : {L E A : Type 0} → A → Ran L E A
pure a = record { log = []; exit = returned a }

abbrev pub raise : {L E A : Type 0} → E → Ran L E A
raise e = record { log = []; exit = failed e }

-- One thing done.
abbrev pub act : {L E : Type 0} → L → Ran L E (Unit {0})
act event = record { log = event ∷ []; exit = returned tt }

infixl 5 ◌>>=◌ ◌>>◌
abbrev pub ◌>>=◌ : {L E A B : Type 0} → Ran L E A → (A → Ran L E B) → Ran L E B
m >>= f = elim (m.exit) [
  | returned a ↦ record { log = m.log ++ (f a).log; exit = (f a).exit }
  | failed e ↦ record { log = m.log; exit = failed e }
  | panicked ↦ record { log = m.log; exit = panicked }
]

abbrev pub ◌>>◌ : {L E B : Type 0} → Ran L E (Unit {0}) → Ran L E B → Ran L E B
m >> k = m >>= λ _. k

-- A return with an error under a condition.
abbrev pub raise_if : {L E : Type 0} → Bool → E → Ran L E (Unit {0})
raise_if true e = raise e
raise_if false e = pure tt

-- `?` on a result whose error turns into one of the program's.
abbrev pub try_with : {L E F A : Type 0} → (F → E) → Result A F → Ran L E A
try_with wrap (ok a) = pure a
try_with wrap (err e) = raise (wrap e)

-- Code that may panic.
abbrev pub run : {L E A : Type 0} → Run A → Ran L E A
run (done a) = pure a
run panic = record { log = []; exit = panicked }
