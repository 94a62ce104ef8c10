-- ===== src/Tests/Reports.antt =====
-- The report on the metrics of a small trace.
use autonat_project.Metrics.Confidence.{compute_time_to_confidence}
use autonat_project.Metrics.Events.{session_events}
use autonat_project.Metrics.Events.{lists_some}
use autonat_project.Metrics.Events.{elapsed_ms}
use autonat_project.Metrics.Events.{any_public}
use autonat_project.Base.{keep}
use autonat_project.Base.{last?}
use autonat_project.Json.{coerce_int}
use autonat_project.Metrics.Overhead.Total.{compute_protocol_overhead}
use autonat_project.Metrics.Rates.{compute_fpr}
use autonat_project.Base.Int.{◌-ℤ◌}
use autonat_project.Base.{
  ◌*◌, any, ◌>>=◌, String, ◌<>◌, ◌==◌, ◌≡◌, refl, some, List, [], ◌∷◌, if◌then◌else◌,
}
use autonat_project.Base.Int.{ℤ, pos, leb_ℤ}
use autonat_project.Base.Show.{show}
use autonat_project.Base.Split.{join}
use autonat_project.Base.Dict.{lookup}
use autonat_project.Metrics.Stats.Exact.{round_div, mean_exact, median_exact}
use autonat_project.Metrics.Overhead.{probe_byte_estimate}
use autonat_project.Metrics.Options.{Request}
use autonat_project.Metrics.Report.{Numbers}
use autonat_project.Metrics.Report.Program.{compute_all, text_output, printed}
use autonat_project.Json.{str, list, cons, nil, int, is_text}
use autonat_project.Trace.Parse.{Trace}
use autonat_project.Tests.Fixtures.{python, lines, probe, trace_with}

-- Numbers without a fraction.
abbrev whole : Numbers
whole = record {
  Number = ℤ;
  of_int = λ v. v;
  of_json = λ v. elim v [ int n ↦ n | _ ↦ pos 0 ];
  text = λ v. show v;
  to_float = λ v. v;
  at_least = λ v k. leb_ℤ (pos k) v;
  scaled = λ v k. show (round_div v k);
  trunc = λ v. v;
  percent_text = λ r. show (round_div (pos (100 * r.num)) r.den) <> "%";
  pct_text = λ r. show (round_div (pos r.num) r.den);
}

abbrev lines_of : String → List String
lines_of path = if path == "a.json" then lines else []

abbrev report_args : List String
report_args = "--metric" ∷ "fpr, time_to_confidence, protocol_overhead" ∷ "a.json" ∷ []

-- The trace of the file: an address that is reported as reachable after six seconds, and one probe.
abbrev loaded : List (String × Trace)
loaded =
    (
      "a.json",
      trace_with (probe "public" ∷ []) (
          record {
            name = str "reachable_addrs_changed";
            time = str "t1";
            attrs =
                ("reachable", list (cons (str "/ip4/73.0.0.10") nil))
                ∷ ("elapsed_ms", int (pos 6012))
                ∷ [];
          }
          ∷ []),
    )
    ∷ []

abbrev report_request : Request
report_request = record {
  unique = "fpr" ∷ "time_to_confidence" ∷ "protocol_overhead" ∷ [];
  traces = loaded;
  format = "text";
}

-- The text that is printed.
report_run :
    (compute_all python report_request.unique loaded >>= λ rs.
    some (printed whole report_request rs))
    ≡ some (
        text_output (
          join "\n" (
            "=== Trace Analysis: 1 file(s) ===" ∷ "" ∷ "False Positive Rate (FPR):" ∷ "  0/1 = 0%"
            ∷ "" ∷ "Time-to-Confidence:" ∷ "  Reachable convergence (n=1):" ∷ "    mean:   6012ms"
            ∷ "    median: 6012ms" ∷ "    p95:    6012ms" ∷ "" ∷ "Protocol Overhead (estimated):"
            ∷ "  probes per run:         mean=1, median=1, p95=1"
            ∷ "  refresh cycles per run: mean=0, median=0, p95=0"
            ∷ "  protocol bytes/probe:   mean=36B, median=36B, p95=36B  (excl. amplification)"
            ∷ "  amplification bytes:    mean=0B, median=0B, p95=0B"
            ∷ "  total bytes/session:    mean=36B, median=36B, p95=36B"
            ∷ "  amplification triggered: 0% of probes" ∷ "" ∷ [])))
unfolding compute_all printed join compute_time_to_confidence session_events keep is_text lists_some
    lookup elapsed_ms coerce_int last? compute_protocol_overhead probe_byte_estimate compute_fpr
    any_public any ◌-ℤ◌ mean_exact median_exact
report_run = refl
