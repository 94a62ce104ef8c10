-- ===== src/Tests/Drawings.antt =====
-- The gap timelines and the overhead's bars of the figures.
use autonat_project.Base.{◌≡◌, refl, false, some, [], ◌∷◌}
use autonat_project.Base.Int.{pos}
use autonat_project.Base.Always.{Always}
use autonat_project.Figures.Gap.{v1_med, v1_gaps}
use autonat_project.Figures.Overhead.{collect}
use autonat_project.Figures.Bars.{overhead_bars}
use autonat_project.Figures.Bars.Laws.{overhead_bars-collect}
use autonat_project.Tests.Fixtures.{python, lines}

-- The gaps of the panel in the middle.
gaps_run :
    v1_gaps (pos 530) (pos 6) v1_med
    ≡ record { from = pos 215; to = pos 310; text = "GAP: 95s" }
      ∷ record { from = pos 460; to = pos 525; text = "GAP: 65s" }
      ∷ []
unfolding v1_gaps
gaps_run = refl

overhead_bars-collect_example :
    Always
      (λ d. (overhead_bars d "tcp").with_amp ≡ false)
      (collect python (λ v. some v) (("full-cone-tcp-7-lat10.json", lines) ∷ []) [])
overhead_bars-collect_example =
    overhead_bars-collect python (λ v. some v) (("full-cone-tcp-7-lat10.json", lines) ∷ []) "tcp"
