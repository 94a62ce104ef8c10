-- ===== src/Nebula/Charts.antt =====
-- The main part of results/nebula-analysis/plot.py: the charts in their order.
use autonat_project.Base.{String, Bool, true, false, Option, none, some, List, [], ◌∷◌, ◌>>=◌}
use autonat_project.Base.Int.{ℤ}
use autonat_project.Nebula.{Row}
use autonat_project.Nebula.Clients.{chart_clients}
use autonat_project.Nebula.Protocols.{chart_autonat_protocols}
use autonat_project.Nebula.Versions.{Floats, chart_server_mode, chart_oscillation_refined}
use autonat_project.Nebula.Dialable.{chart_dialable_over_time}
use autonat_project.Nebula.Grid.{chart_dialability_vs_public}

-- The files that were written, and whether the program came to its end.
pub record Written : Type 0 where
  pub files : List String
  pub done : Bool

-- A chart's file and its data, after what was written before it. `none` ends the program.
abbrev chart {ℓ} : {A : Type ℓ} → String → Option A → Written → Written
chart file none rest = record { files = []; done = false }
chart file (some a) rest = record rest { files = file ∷ rest.files }

-- `read_csv`, by the name of a file in the data's directory, is a parameter.
module _ (fl : Floats) (percentage : ℤ → ℤ → Option String) {F : Type 0} (log10 : ℤ → F) (nan : F)
    (read_csv : String → Option (List Row)) where
  unfoldable pub charts : Written
  unfolding chart_clients chart_autonat_protocols chart_server_mode chart_dialable_over_time
      chart_oscillation_refined chart_dialability_vs_public
  charts = chart "02_clients.png" (read_csv "01_clients.csv" >>= chart_clients) (
      chart "03_autonat_protocols.png"
        (read_csv "02_autonat_protocols.csv" >>= chart_autonat_protocols percentage)
        (chart "04_server_mode.png" (read_csv "03_server_mode.csv" >>= chart_server_mode fl) (
          chart "01_dialable_over_time.png"
            (read_csv "05_dialable_over_time.csv" >>= chart_dialable_over_time fl)
            (chart "06_oscillation_refined_appendix.png"
              (read_csv "06_oscillation_refined.csv" >>= chart_oscillation_refined fl)
              (chart "05_dialability_vs_public.png"
                (read_csv "08_dialability_vs_public.csv" >>= chart_dialability_vs_public log10 nan)
                (record { files = []; done = true }))))))
