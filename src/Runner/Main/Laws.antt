-- ===== src/Runner/Main/Laws.antt =====
-- The nested loops of `main` are one run after another of a schedule, and count them.
use autonat_project.Base.{ℕ, String, ◌≡◌, Bool, List}
use autonat_project.Base.Int.{ℤ}
use autonat_project.Json.{Json, Python}
use autonat_project.Scenario.Defs.{Scenario}
use autonat_project.Base.Dict.{Dict}
use autonat_project.Runner.Effects.{World, Result, done}
use autonat_project.Runner.Run.{Seen}
use autonat_project.Runner.Main.{Totals}
use autonat_project.Runner.Main.Schedule.{tallied, Ran}

module _ (py : Python) (pretty : Json → String) (str_int : ℤ → String) (fuel : ℕ)
    (seen : ℕ → Seen) where
  -- What the loops give from the totals so far.
  abbrev Counts : String → List (Scenario × ℕ) → Totals → World → Result Totals × World → Type 0
  Counts dir is t w r =
      (bs : List Bool) × (v : World) × Ran py pretty str_int fuel seen dir is t.scenario_num w bs v
      × (r ≡ (done (tallied bs t), v))
