-- ===== src/Figures/Program.antt =====
-- The main part of results/generate_figures.py: the figures in their order, each with the directory
-- that it needs.
pub mod Laws
use autonat_project.Base.{
  String, ◌<>◌, Bool, true, false, ◌&&◌, Option, none, some, List, [], ◌∷◌, ◌++◌, if◌then◌else◌,
  ◌>>=◌,
}
use autonat_project.Base.Dict.{Dict, lookup}
use autonat_project.Json.{Json, Python}
use autonat_project.Trace.Attrs.{traverse}
use autonat_project.Figures.Conditions.{Directories, Convergence, collect_convergence, heat_matrix}
use autonat_project.Figures.Impact.{latencies, losses, impact_lines}
use autonat_project.Figures.Detection.{matrix}
use autonat_project.Figures.Timeline.{read_toggles}
use autonat_project.Figures.Gap.{panels}
use autonat_project.Figures.Rates.{File}
use autonat_project.Figures.Bars.{fnr_fpr_summary}
use autonat_project.Figures.Overhead.{collect}
use autonat_project.Figures.Palette.{heat_colors}

-- What the program does to the world.
pub data Effect : Type 0 where
  save : String → Effect
  print : String → Effect

-- The effects, and whether no exception has ended the program.
pub record Drawn : Type 0 where
  pub effects : List Effect
  pub ended : Bool

-- One part after another; an exception ends both.
infixr 5 ◌▷◌
unfoldable pub ◌▷◌ : Drawn → Drawn → Drawn
a ▷ b = if a.ended then record { effects = a.effects ++ b.effects; ended = b.ended } else a

abbrev pub printing : String → Drawn
printing text = record { effects = print text ∷ []; ended = true }

-- A figure is computed, drawn, saved and named.
unfoldable pub figure {ℓ} : {A : Type ℓ} → (String → Bool) → String → Option A → Drawn
figure draws file none = record { effects = []; ended = false }
figure draws file (some a) =
    if draws file
    then record { effects = save file ∷ print ("  " <> file) ∷ []; ended = true }
    else record { effects = []; ended = false }

abbrev baseline_dir : String
baseline_dir = "full-matrix-20260320T090848Z"

abbrev latency_dir : String
latency_dir = "high-latency-20260320T134357Z"

abbrev loss_dir : String
loss_dir = "packet-loss-20260320T140258Z"

abbrev ttu_dir : String
ttu_dir = "reachable-forwarded-20260322T160744Z"

abbrev pub files_of : Option (List File) → List File
files_of none = []
files_of (some files) = files

-- A figure that is left out when its directory, or its file, is not there. `missing` is what the
-- function does then.
unfoldable pub needing {ℓ} : {B : Type ℓ} → Drawn → (B → Drawn) → Option B → Drawn
needing missing draw none = missing
needing missing draw (some found) = draw found

abbrev pub silence : Drawn
silence = record { effects = []; ended = true }

-- `list_dir` is what a directory of the results holds, where it exists, and `gap_dirs` are the
-- directories that `_compute_fnr_fpr_gap` looks through. `draws` says of a file's name whether the
-- drawing of its figure raises no exception.
module _ (py : Python) (to_float : Json → Option Json) (less above : Json → Json → Bool)
    (capitalize : String → String) (list_dir : String → Option (List File))
    (gap_dirs : List (String × List File)) (draws : String → Bool) where
  abbrev dirs : Directories
  dirs = record {
    baseline_dir = files_of (list_dir baseline_dir);
    loss_dir = files_of (list_dir loss_dir);
    latency_dir = files_of (list_dir latency_dir);
  }

  -- `os.path.exists(toggles_file)`
  abbrev pub toggles_file : Option (List String)
  toggles_file = do
    files ← list_dir ttu_dir
    lookup "toggle-port-restricted-tcp-lat10.toggles.json" files

  unfoldable pub fig_convergence : Drawn
  unfolding collect_convergence
  fig_convergence =
      needing (printing "  Skipping: no baseline data")
        (λ files.
          figure draws "01_convergence.png"
            (collect_convergence py to_float files (record { v1_data = []; v2_data = [] })))
        (list_dir baseline_dir)

  unfoldable pub fig_latency_impact : Drawn
  unfolding impact_lines
  fig_latency_impact =
      needing (printing "  Skipping: no latency data")
        (λ files.
          figure draws "03_latency_impact.png" (impact_lines py to_float less dirs latencies))
        (list_dir latency_dir)

  unfoldable pub fig_packet_loss_impact : Drawn
  unfolding impact_lines
  fig_packet_loss_impact =
      needing (printing "  Skipping: no packet-loss data")
        (λ files.
          figure draws "04_packet_loss_impact.png" (impact_lines py to_float less dirs losses))
        (list_dir loss_dir)

  unfoldable pub fig_detection_correctness : Drawn
  unfolding matrix
  fig_detection_correctness =
      needing silence
        (λ files. figure draws "05_detection_correctness.png" (matrix py to_float files))
        (list_dir baseline_dir)

  unfoldable pub fig_time_to_update : Drawn
  unfolding read_toggles lookup
  fig_time_to_update =
      needing (printing "  Skipping: no TTU data")
        (λ lines. figure draws "06_time_to_update.png" (read_toggles py lines)) toggles_file

  unfoldable pub fig_fnr_fpr_summary : Drawn
  unfolding fnr_fpr_summary
  fig_fnr_fpr_summary =
      figure draws "07_fnr_fpr_summary.png" (fnr_fpr_summary py to_float list_dir gap_dirs)

  heat_map : String → Drawn
  unfolding heat_matrix heat_colors
  heat_map transport =
      figure draws ("08_convergence_heatmap_" <> transport <> ".png")
        (do mat ← heat_matrix py to_float less dirs transport; heat_colors less above mat)

  unfoldable pub fig_convergence_heatmap : Drawn
  unfolding heat_map
  fig_convergence_heatmap = heat_map "tcp" ▷ heat_map "quic"

  unfoldable pub fig_v1_v2_gap_timeline : Drawn
  unfolding panels
  fig_v1_v2_gap_timeline = figure draws "10_v1_v2_gap_comparison.png" (panels capitalize)

  unfoldable pub fig_protocol_overhead : Drawn
  unfolding collect
  fig_protocol_overhead =
      needing (printing "  Skipping: no baseline data")
        (λ files. figure draws "11_protocol_overhead.png" (collect py to_float files []))
        (list_dir baseline_dir)

  unfoldable pub figures_main : String → Drawn
  unfolding ◌▷◌ fig_convergence fig_latency_impact fig_packet_loss_impact fig_detection_correctness
      fig_time_to_update fig_fnr_fpr_summary fig_convergence_heatmap fig_v1_v2_gap_timeline
      fig_protocol_overhead
  figures_main outdir =
      printing "Generating figures..."
      ▷ fig_convergence
      ▷ fig_latency_impact
      ▷ fig_packet_loss_impact
      ▷ fig_detection_correctness
      ▷ fig_time_to_update
      ▷ fig_fnr_fpr_summary
      ▷ fig_convergence_heatmap
      ▷ fig_v1_v2_gap_timeline
      ▷ fig_protocol_overhead
      ▷ printing ("\nAll figures saved to " <> outdir <> "/")
