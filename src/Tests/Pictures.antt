-- ===== src/Tests/Pictures.antt =====
-- The main part of results/generate_figures.py where only the directory of the baseline is there.
use autonat_project.Figures.Program.{needing}
use autonat_project.Figures.Program.{figure}
use autonat_project.Base.{
  String, ◌==◌, ◌≡◌, refl, Bool, true, false, Option, none, some, List, [], if◌then◌else◌,
}
use autonat_project.Json.{Json}
use autonat_project.Figures.Rates.{File}
use autonat_project.Figures.Program.{figures_main}
use autonat_project.Figures.Program.Laws.{IsPart, expected, figures_main_lem}
use autonat_project.Tests.Fixtures.{python}

abbrev no_float : Json → Option Json
no_float v = none

abbrev never : Json → Json → Bool
never v w = false

abbrev only_baseline : String → Option (List File)
only_baseline dir = if dir == "full-matrix-20260320T090848Z" then some [] else none

figures_main_lem_example :
    IsPart
      (expected only_baseline none "figures")
      (figures_main python no_float never never (λ s. s) only_baseline [] (λ file. true) "figures")
figures_main_lem_example =
    figures_main_lem python no_float never never (λ s. s) only_baseline [] (λ file. true) "figures"

ended_run :
    (figures_main python no_float never never
      (λ s. s)
      only_baseline
      []
      (λ file. true)
      "figures").ended
    ≡ true
unfolding figures_main needing figure
ended_run = refl

-- The heat map cannot be drawn.
stopped_run :
    (figures_main python no_float never never
      (λ s. s)
      only_baseline
      []
      (λ file. if file == "08_convergence_heatmap_tcp.png" then false else true)
      "figures").ended
    ≡ false
unfolding figures_main needing figure
stopped_run = refl
