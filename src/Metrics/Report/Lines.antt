-- ===== src/Metrics/Report/Lines.antt =====
-- The lines of the report, a section for each metric.
use autonat_project.Base.{ℕ, zero, suc, String, ◌<>◌, Option, none, some, List, [], ◌∷◌, ◌++◌}
use autonat_project.Base.Show.{show_ℕ}
use autonat_project.Base.Split.{join}
use autonat_project.Metrics.Stats.{Stats}
use autonat_project.Metrics.Rates.{Rate}
use autonat_project.Metrics.Confidence.{Confidence}
use autonat_project.Metrics.Update.{Update, Flip, Direction, lost, gained}
use autonat_project.Metrics.Overhead.Total.{Overhead, Figures}
use autonat_project.Metrics.Report.{
  Numbers, Result, false_negative_rate, false_positive_rate, time_to_confidence, time_to_update,
  protocol_overhead, ms, ms_num, bytes,
}

abbrev pub of_total : ℕ → ℕ → String
of_total n total = show_ℕ n <> "/" <> show_ℕ total

-- A kind of convergence of the section on the time to confidence.
unfoldable pub stats_lines : String → Option Stats → List String
unfolding ms show_ℕ
stats_lines kind none = []
stats_lines kind (some s) =
    ("  " <> kind <> " convergence (n=" <> show_ℕ s.n <> "):")
    ∷ ("    mean:   " <> ms s.mean_ms)
    ∷ ("    median: " <> ms s.median_ms)
    ∷ ("    p95:    " <> ms s.p95_ms)
    ∷ []

unfoldable pub no_convergence_lines : ℕ → ℕ → List String
unfolding show_ℕ
no_convergence_lines zero total = []
no_convergence_lines (suc n) total =
    ("  " <> of_total (suc n) total <> " runs did not converge") ∷ []

unfoldable pub confidence_lines : Confidence → List String
unfolding no_convergence_lines stats_lines
confidence_lines c =
    "Time-to-Confidence:"
    ∷ (no_convergence_lines c.no_convergence c.total
        ++ (stats_lines "Reachable" c.reachable
            ++ (stats_lines "Unreachable" c.unreachable ++ "" ∷ [])))

abbrev pub direction_text : Direction → String
direction_text lost = "reachable→unreachable"
direction_text gained = "unreachable→reachable"

unfoldable pub flip_lines : List Flip → List String
unfolding ms
flip_lines [] = []
flip_lines (f ∷ fs) =
    ("  flip at " <> ms f.elapsed_ms <> " (" <> direction_text f.direction <> ")") ∷ flip_lines fs

-- The field "note" of `compute_time_to_update`.
abbrev pub note : String
note =
    "elapsed_ms is time of status change since session start, not since network change event. "
    <> "Full P3.6 dynamic test provides the delta."

unfoldable pub update_lines : Update → List String
unfolding flip_lines show_ℕ
update_lines u =
    "Time-to-Update:"
    ∷ ("  " <> of_total u.no_flip_detected u.total <> " runs had no status flip")
    ∷ (flip_lines u.flips ++ ("  Note: " <> note) ∷ "" ∷ [])

module _ (num : Numbers) where
  open num use {of_int, of_json, text, percent_text, pct_text}

  unfoldable pub rate_lines : String → Rate → List String
  unfolding show_ℕ
  rate_lines title r =
      title ∷ ("  " <> of_total r.wrongs r.total <> " = " <> percent_text r.rate) ∷ "" ∷ []

  -- The numbers of runs.
  unfoldable pub count_line : String → Option Figures → List String
  count_line title none = []
  count_line title (some s) =
      (title
        <> "mean="
        <> text (of_json s.mean)
        <> ", median="
        <> text (of_json s.median)
        <> ", p95="
        <> text (of_int s.p95))
      ∷ []

  unfoldable pub duration_line : Option Figures → List String
  duration_line none = []
  duration_line (some s) =
      ("  session duration:       mean="
        <> ms_num num (of_json s.mean)
        <> ", median="
        <> ms_num num (of_json s.median))
      ∷ []

  unfoldable pub bytes_line : String → String → Option Figures → List String
  unfolding bytes
  bytes_line title remark none = []
  bytes_line title remark (some s) =
      (title
        <> "mean="
        <> bytes num (of_json s.mean)
        <> ", median="
        <> bytes num (of_json s.median)
        <> ", p95="
        <> bytes num (of_int s.p95)
        <> remark)
      ∷ []

  unfoldable pub overhead_lines : Overhead → List String
  unfolding count_line duration_line bytes_line
  overhead_lines o =
      "Protocol Overhead (estimated):"
      ∷ (count_line "  probes per run:         " o.probes_per_run
          ++ (count_line "  refresh cycles per run: " o.refresh_cycles_per_run
              ++ (duration_line o.session_duration_ms
                  ++ (bytes_line "  protocol bytes/probe:   " "  (excl. amplification)"
                        o.protocol_bytes_per_probe
                      ++ (bytes_line "  amplification bytes:    " "" o.amplification_bytes_per_probe
                          ++ (bytes_line "  total bytes/session:    " "" o.total_bytes_per_session
                              ++ ("  amplification triggered: "
                                  <> pct_text o.amplification_triggered_pct
                                  <> "% of probes")
                                ∷ ""
                                ∷ []))))))

  -- The body of the loop over the results.
  unfoldable pub section : Result → List String
  unfolding rate_lines confidence_lines update_lines overhead_lines
  section (false_negative_rate r) = rate_lines "False Negative Rate (FNR):" r
  section (false_positive_rate r) = rate_lines "False Positive Rate (FPR):" r
  section (time_to_confidence c) = confidence_lines c
  section (time_to_update u) = update_lines u
  section (protocol_overhead o) = overhead_lines o

  unfoldable pub sections : List Result → List String → List String
  unfolding section
  sections [] lines = lines
  sections (r ∷ rs) lines = sections rs (lines ++ section r)

  unfoldable pub format_text : ℕ → List Result → String
  unfolding sections join show_ℕ
  format_text total_files metrics = join "\n" (
      sections metrics (("=== Trace Analysis: " <> show_ℕ total_files <> " file(s) ===") ∷ "" ∷ []))
