-- ===== src/Metrics/Report/Program.antt =====
-- The end of `main` of testbed/analyze.py: the metrics that are computed, and what is printed.
use autonat_project.Base.{
  ℕ, String, ◌==◌, Option, none, some, List, [], ◌∷◌, length, if◌then◌else◌, ◌>>=◌,
}
use autonat_project.Json.{Python}
use autonat_project.Metrics.Events.{Traces}
use autonat_project.Metrics.Rates.{compute_fnr, compute_fpr}
use autonat_project.Metrics.Confidence.{compute_time_to_confidence}
use autonat_project.Metrics.Update.{compute_time_to_update}
use autonat_project.Metrics.Overhead.Total.{compute_protocol_overhead}
use autonat_project.Metrics.Options.{Request, read_request}
use autonat_project.Metrics.Report.{
  Numbers, Result, false_negative_rate, false_positive_rate, time_to_confidence, time_to_update,
  protocol_overhead,
}
use autonat_project.Metrics.Report.Lines.{format_text}

-- How the program ends: with status 1, or with the results printed as JSON or as a text.
pub data Ending : Type 0 where
  exit_1 : Ending
  json_output : ℕ → List Result → Ending
  text_output : String → Ending

-- `metric_results.append(fn(traces))` `if fn`
abbrev add_result : Option Result → List Result → List Result
add_result none rs = rs
add_result (some r) rs = r ∷ rs

module _ (py : Python) where
  -- `METRIC_FUNCS.get(m)` on the traces. The outer `none` is an exception of the function, the inner
  -- one a name that is no key.
  unfoldable pub compute : String → Traces → Option (Option Result)
  compute m traces =
      if m == "fnr"
      then some (some (false_negative_rate (compute_fnr py traces)))
      else if m == "false_negative_rate"
      then some (some (false_negative_rate (compute_fnr py traces)))
      else if m == "fpr"
      then some (some (false_positive_rate (compute_fpr py traces)))
      else if m == "false_positive_rate"
      then some (some (false_positive_rate (compute_fpr py traces)))
      else if m == "time_to_confidence"
      then (do c ← compute_time_to_confidence py traces; some (some (time_to_confidence c)))
      else if m == "time_to_update"
      then some (some (time_to_update (compute_time_to_update py traces)))
      else if m == "protocol_overhead"
      then (do o ← compute_protocol_overhead py traces; some (some (protocol_overhead o)))
      else some none

  unfoldable pub compute_all : List String → Traces → Option (List Result)
  unfolding compute
  compute_all [] traces = some []
  compute_all (m ∷ ms) traces = do
    r ← compute m traces
    rs ← compute_all ms traces
    some (add_result r rs)

module _ (num : Numbers) where
  unfoldable pub printed : Request → List Result → Ending
  unfolding format_text
  printed request results =
      if request.format == "json"
      then json_output (length request.traces) results
      else text_output (format_text num (length request.traces) results)

  -- `main`; `none` is an exception.
  unfoldable pub metrics_main : Python → (String → List String) → List String → Option Ending
  unfolding compute_all printed
  metrics_main py lines_of args = elim (read_request py lines_of args) [
    | none ↦ some exit_1
    | some request ↦ (do
      results ← compute_all py request.unique request.traces
      some (printed request results))
  ]
