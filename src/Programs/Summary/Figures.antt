-- ===== src/Programs/Summary/Figures.antt =====
-- The figures that the client prints.
use pktauth.Base.{sum}
use pktauth.Base.{
  ℕ, ◌+◌, ◌*◌, ◌/◌, ◌%◌, ◌^◌, ◌≤◌, ◌<◌, List, [], ◌∷◌, some, min, max, ◌≡◌, refl, ap, ◌∙◌, arith,
}
use pktauth.Base.{done, length, All, ltb, ne→==, true}
use pktauth.Programs.Summary.{Rtts, duration_limit, sum_durations, min_duration, max_duration}
use pktauth.Programs.Summary.{divide_duration, rtt_figures}
use native.Mathlib.Nat.{le-div_iff_mul-le, div-le_of_le-mul, mul_comm}

-- What the three figures say of some round trips.
pub record AreFigures (rtts : List ℕ) (figures : Rtts) : Type 0 where
  pub least : All (λ d. figures.min_rtt ≤ d) rtts
  pub most : All (λ d. d ≤ figures.max_rtt) rtts
  pub mean : figures.avg_rtt ≡ sum rtts / length rtts
  pub min_le_avg : figures.min_rtt ≤ figures.avg_rtt
  pub avg_le_max : figures.avg_rtt ≤ figures.max_rtt

pub All-weaken : (P Q : ℕ → Type 0) (xs : List ℕ) → ((x : ℕ) → P x → Q x) → All P xs → All Q xs
All-weaken P Q [] h a = tt
All-weaken P Q (x ∷ xs) h a = (h x a.0, All-weaken P Q xs h a.1)

min_duration_lem :
    (d : ℕ) (ds : List ℕ) → (m : ℕ) × (min_duration (d ∷ ds) ≡ some m) × All (λ x. m ≤ x) (d ∷ ds)
min_duration_lem d [] = (d, refl, (omega arith, tt))
min_duration_lem d (d' ∷ ds) =
    let (m, e, a) = min_duration_lem d' ds in
    (
      min d m,
      rw e refl,
      (omega arith, All-weaken (λ x. m ≤ x) (λ x. min d m ≤ x) (d' ∷ ds) (λ x h. omega arith) a),
    )

max_duration_lem :
    (d : ℕ) (ds : List ℕ) → (m : ℕ) × (max_duration (d ∷ ds) ≡ some m) × All (λ x. x ≤ m) (d ∷ ds)
max_duration_lem d [] = (d, refl, (omega arith, tt))
max_duration_lem d (d' ∷ ds) =
    let (m, e, a) = max_duration_lem d' ds in
    (
      max d m,
      rw e refl,
      (omega arith, All-weaken (λ x. x ≤ m) (λ x. x ≤ max d m) (d' ∷ ds) (λ x h. omega arith) a),
    )

sum_durations-sum :
    (acc : ℕ) (ds : List ℕ)
    → acc + sum ds < duration_limit
    → sum_durations acc ds ≡ done (acc + sum ds)
sum_durations-sum acc [] h = ap done (omega arith)
sum_durations-sum acc (d ∷ ds) h =
    let fits : ltb (acc + d) duration_limit ≡ true = ground arith in
    rw fits (sum_durations-sum (acc + d) ds (omega arith) ∙ ap done (omega arith))

pub sum-le : (m : ℕ) (ds : List ℕ) → All (λ x. x ≤ m) ds → sum ds ≤ m * length ds
sum-le m [] a = omega arith
sum-le m (d ∷ ds) a = grind (arith, a.0, sum-le m ds a.1)

le-sum : (m : ℕ) (ds : List ℕ) → All (λ x. m ≤ x) ds → m * length ds ≤ sum ds
le-sum m [] a = omega arith
le-sum m (d ∷ ds) a = grind (arith, a.0, le-sum m ds a.1)

-- Round trips whose number fits 32 bits and whose sum fits a duration have figures.
pub rtt_figures-AreFigures :
    (d : ℕ) (ds : List ℕ)
    → length (d ∷ ds) < 2 ^ 32
    → sum (d ∷ ds) < duration_limit
    → (figures : Rtts) × (rtt_figures (d ∷ ds) ≡ done figures) × AreFigures (d ∷ ds) figures
unfolding rtt_figures
rtt_figures-AreFigures d ds few fits =
    let rtts : List ℕ = d ∷ ds in
    let (least, e, lower) = min_duration_lem d ds in
    let (most, e', upper) = max_duration_lem d ds in
    let added : sum_durations 0 rtts ≡ done (sum rtts) =
      sum_durations-sum 0 rtts (omega arith) ∙ ap done (omega arith) in
    let kept : length rtts % 2 ^ 32 ≡ length rtts = omega arith in
    let divided : divide_duration (sum rtts) (length rtts % 2 ^ 32)
        ≡ done (sum rtts / length rtts) =
      rw kept (rw (ne→== (length rtts) 0 (λ z. omega (arith, z))) refl) in
    (
      record { min_rtt = least; avg_rtt = sum rtts / length rtts; max_rtt = most },
      rw (e, e', added, divided) refl,
      record {
        least = lower;
        most = upper;
        mean = refl;
        min_le_avg =
            (le-div_iff_mul-le {x = least} {y = sum rtts} (omega arith)).1
              (le-sum least rtts lower);
        avg_le_max =
            div-le_of_le-mul (length rtts)
              (omega (arith, sum-le most rtts upper, mul_comm most (length rtts)));
      },
    )
