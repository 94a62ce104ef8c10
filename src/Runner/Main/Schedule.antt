-- ===== src/Runner/Main/Schedule.antt =====
-- The schedule of a program's runs, a run of it, and its totals.
use mathlib.Core.Path.{subst}
use autonat_project.Base.{
  ℕ, zero, suc, ◌+◌, String, ◌<>◌, ◌≡◌, refl, sym, ap, ◌∙◌, Bool, true, false, not, List, [], ◌∷◌,
  ◌++◌, count, length, arith,
}
use autonat_project.Base.Int.{ℤ, pos}
use autonat_project.Base.Split.{path_join}
use autonat_project.Json.{Json, Python}
use autonat_project.Scenario.Defs.{Scenario}
use autonat_project.Scenario.Label.{build_run_label}
use autonat_project.Runner.Effects.{World, Result, done}
use autonat_project.Runner.Run.{Seen, run_scenario}
use autonat_project.Runner.Main.{Totals, tally, range_length}

-- The runs of a scenario, each with its number.
abbrev pub runs_from : Scenario → ℕ → ℕ → List (Scenario × ℕ)
runs_from s zero k = []
runs_from s (suc left) k = (s, k) ∷ runs_from s left (k + 1)

-- All runs: the scenarios in turn, each as often as it says.
abbrev pub schedule : List Scenario → List (Scenario × ℕ)
schedule [] = []
schedule (s ∷ ss) = runs_from s (range_length s.runs) 1 ++ schedule ss

-- The totals after some more runs.
abbrev pub tallied : List Bool → Totals → Totals
tallied bs t = record {
  total_pass = t.total_pass + count (λ b. b) bs;
  total_fail = t.total_fail + count not bs;
  scenario_num = t.scenario_num + length bs;
}

totals_eq :
    (a b c d e f : ℕ)
    → a ≡ d
    → b ≡ e
    → c ≡ f
    → ◌≡◌ {A = Totals}
        (record { total_pass = a; total_fail = b; scenario_num = c })
        (record { total_pass = d; total_fail = e; scenario_num = f })
totals_eq a b c d e f p q r = rw (p, q, r) refl

pub tallied-tally :
    (b : Bool) (bs : List Bool) (t : Totals) → tallied bs (tally b t) ≡ tallied (b ∷ bs) t
unfolding count
tallied-tally true bs t = totals_eq _ _ _ _ _ _ (omega arith) (omega arith) (omega arith)
tallied-tally false bs t = totals_eq _ _ _ _ _ _ (omega arith) (omega arith) (omega arith)

pub tallied-append :
    (bs cs : List Bool) (t : Totals) → tallied cs (tallied bs t) ≡ tallied (bs ++ cs) t
unfolding count
tallied-append [] cs t = totals_eq _ _ _ _ _ _ (omega arith) (omega arith) (omega arith)
tallied-append (b ∷ bs) cs t =
    ap (tallied cs) (sym (tallied-tally b bs t))
    ∙ tallied-append bs cs (tally b t)
    ∙ tallied-tally b (bs ++ cs) t

pub tallied-empty : (t : Totals) → t ≡ tallied [] t
unfolding count
tallied-empty t = totals_eq _ _ _ _ _ _ (omega arith) (omega arith) (omega arith)

pub scenario_num-tally : (b : Bool) (t : Totals) → (tally b t).scenario_num ≡ t.scenario_num + 1
scenario_num-tally true t = refl
scenario_num-tally false t = refl

add_zero : (k : ℕ) → k + 0 ≡ k
add_zero k = omega arith

add_suc : (k n : ℕ) → k + suc n ≡ (k + 1) + n
add_suc k n = omega arith

module _ (py : Python) (pretty : Json → String) (str_int : ℤ → String) (fuel : ℕ)
    (seen : ℕ → Seen) where
  -- The run after `k` runs.
  abbrev pub run_of : String → ℕ → Scenario × ℕ → World → Result Bool × World
  run_of dir k (s, n) =
      run_scenario py pretty str_int fuel (seen k) s
        (path_join dir (build_run_label str_int s (pos n) <> ".json"))

  -- The runs of a schedule end one after another, with these results.
  abbrev pub Ran : String → List (Scenario × ℕ) → ℕ → World → List Bool → World → Type 0
  Ran dir [] k w [] v = w ≡ v
  Ran dir [] k w (b ∷ bs) v = ⊥
  Ran dir (i ∷ is) k w [] v = ⊥
  Ran dir (i ∷ is) k w (b ∷ bs) v =
      (u : World) × (run_of dir k i w ≡ (done b, u)) × Ran dir is (k + 1) u bs v

  -- Each run of the scenario comes to its end.
  abbrev pub Returns : Scenario → Type 0
  Returns s =
      (k : ℕ) (path : String) (w : World)
      → (b : Bool) × (u : World) × (run_scenario py pretty str_int fuel (seen k) s path w
          ≡ (done b, u))

  pub Ran-append :
      (dir : String) (is js : List (Scenario × ℕ)) (k : ℕ) (w : World) (bs cs : List Bool)
      (u v : World)
      → Ran dir is k w bs u
      → Ran dir js (k + length bs) u cs v
      → Ran dir (is ++ js) k w (bs ++ cs) v
  Ran-append dir [] js k w [] cs u v p q =
      subst (λ (n : ℕ). Ran dir js n w cs v) (add_zero k)
        (subst (λ (x : World). Ran dir js (k + 0) x cs v) (sym p) q)
  Ran-append dir [] js k w (b ∷ bs) cs u v p q = absurd p
  Ran-append dir (i ∷ is) js k w [] cs u v p q = absurd p
  Ran-append dir (i ∷ is) js k w (b ∷ bs) cs u v (x, e, p) q = (
    x,
    e,
    Ran-append dir is js (k + 1) x bs cs u v p
        (subst (λ (n : ℕ). Ran dir js n u cs v) (add_suc k (length bs)) q),
  )
