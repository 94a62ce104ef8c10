-- ===== src/Metrics/Report/Laws.antt =====
-- What the end of `main` of testbed/analyze.py computes for the metrics that are asked for.
use autonat_project.Base.{
  ◌⊎◌, none, false, ℕ, String, ◌≡◌, ◌==◌, some, List, [], ◌∷◌, length, if◌then◌else◌,
}
use autonat_project.Json.{Python}
use autonat_project.Metrics.Events.{Traces}
use autonat_project.Metrics.Confidence.{outcomes}
use autonat_project.Metrics.Confidence.Laws.{AreTooLarge}
use autonat_project.Metrics.Overhead.Total.{Tally, empty_tally, tally_loop}
use autonat_project.Metrics.Overhead.Total.Accounts.{AllEstimated}
use autonat_project.Metrics.Overhead.Total.Laws.{AnyOf, AreHuge, lists_of}
use autonat_project.Metrics.Options.{Request}
use autonat_project.Metrics.Report.{
  Numbers, Result, false_negative_rate, false_positive_rate, time_to_confidence, time_to_update,
  protocol_overhead,
}
use autonat_project.Metrics.Report.Program.{Ending, json_output, text_output, compute}
use autonat_project.Metrics.Report.Lines.{format_text}

-- The field "metric" of a result.
abbrev pub metric_field : Result → String
metric_field (false_negative_rate r) = "false_negative_rate"
metric_field (false_positive_rate r) = "false_positive_rate"
metric_field (time_to_confidence c) = "time_to_confidence"
metric_field (time_to_update u) = "time_to_update"
metric_field (protocol_overhead o) = "protocol_overhead"

-- The field "total" of a result.
abbrev pub result_total : Result → ℕ
result_total (false_negative_rate r) = r.total
result_total (false_positive_rate r) = r.total
result_total (time_to_confidence c) = c.total
result_total (time_to_update u) = u.total
result_total (protocol_overhead o) = o.total

-- The metric that a name stands for.
abbrev pub full_name : String → String
full_name m =
    if m == "fnr" then "false_negative_rate" else if m == "fpr" then "false_positive_rate" else m

-- The results for these names, one for each and in their order: of the metric that the name stands
-- for, over this many traces.
abbrev pub AreAnswers : ℕ → List String → List Result → Type 0
AreAnswers n [] [] = Unit
AreAnswers n [] (r ∷ rs) = ⊥
AreAnswers n (m ∷ ms) [] = ⊥
AreAnswers n (m ∷ ms) (r ∷ rs) =
    (metric_field r ≡ full_name m) × (result_total r ≡ n) × AreAnswers n ms rs

-- A number whose mean or median is asked for is too large for a float: a time of convergence, or
-- one in the lists on the protocol's overhead.
abbrev pub HasHugeNumber : Python → Traces → Type 0
HasHugeNumber py traces =
    (AreTooLarge py (outcomes py traces).reachable_times
      ⊎ AreTooLarge py (outcomes py traces).unreachable_times)
    ⊎ ((t : Tally) × (tally_loop py traces empty_tally ≡ some t)
        × AnyOf (AreHuge py) (lists_of py t))

module _ (py : Python) (traces : Traces) (estimated : AllEstimated py traces) where
  abbrev Answered : String → Type 0
  Answered m =
      ((r : Result) × (compute py m traces ≡ some (some r))
        × (metric_field r ≡ full_name m)
        × (result_total r ≡ length traces))
      ⊎ ((compute py m traces ≡ none) × HasHugeNumber py traces)

-- The results in the format: JSON, or else the text of the report, with the number of files.
abbrev pub IsOutput : Numbers → String → ℕ → List Result → Ending → Type 0
IsOutput num format n rs ending =
    ((format ≡ "json") × (ending ≡ json_output n rs))
    ⊎ (((format == "json") ≡ false) × (ending ≡ text_output (format_text num n rs)))
