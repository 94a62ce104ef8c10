-- ===== src/Tests/Metrics.antt =====
-- The metrics over three runs.
use autonat_project.Base.{if◌then◌else◌, ◌==◌, List, String, some}
use autonat_project.Base.Text.{strip}
use autonat_project.Base.Split.{split}
use autonat_project.Metrics.Request.{requested}
use autonat_project.Metrics.Options.{no_options, parse_options}
use autonat_project.Tests.Fixtures.{lines}
use autonat_project.Base.{ℕ, ◌+◌, ◌≡◌, refl, length, count, any, keep, some, none, ◌∷◌, []}
use autonat_project.Base.Int.{pos}
use autonat_project.Base.Dict.{lookup}
use autonat_project.Json.{is_text, coerce_int}
use autonat_project.Metrics.Rates.{compute_fnr, compute_fpr}
use autonat_project.Metrics.Rates.Laws.{agrees, fnr-fpr_partition}
use autonat_project.Metrics.Events.{any_public, any_reachable, session_events, elapsed_ms}
use autonat_project.Metrics.Stats.{Stats}
use autonat_project.Metrics.Confidence.{Confidence, outcomes, times, compute_time_to_confidence}
use autonat_project.Metrics.Confidence.Laws.{
  find_first, time_at, times_lem, runs_of, AreTooLarge, time_to_confidence_partition,
}
use autonat_project.Base.{◌⊎◌}
use autonat_project.Metrics.Update.{Flip, lost, flip_of, compute_time_to_update}
use autonat_project.Metrics.Update.Laws.{IsFlip, IsSteady, flip_of_lem}
use autonat_project.Metrics.Overhead.{estimate_of, addrs_of, probe_byte_estimate}
use autonat_project.Metrics.Overhead.Total.{
  Tally, empty_tally, tally_loop, Overhead, compute_protocol_overhead,
}
use autonat_project.Metrics.Overhead.Total.Accounts.{
  AllEstimated, amplified_of, IsTally, tally_loop_lem,
}
use autonat_project.Metrics.Overhead.Total.Laws.{
  IsPercentage, AnyOf, AreHuge, lists_of, compute_protocol_overhead_lem,
}
use autonat_project.Tests.Fixtures.{python, runs, flapping, silent}

-- One false negative, one false positive, and one run in which the two agree.
rates_run :
    ◌≡◌ {A = ℕ × ℕ} ((compute_fnr python runs).wrongs, (compute_fpr python runs).wrongs) (1, 1)
unfolding compute_fnr compute_fpr any_public any_reachable any keep is_text lookup
rates_run = refl

fnr-fpr_partition_example :
    (compute_fnr python runs).wrongs + (compute_fpr python runs).wrongs + count (agrees python) runs
    ≡ length runs
fnr-fpr_partition_example = fnr-fpr_partition python runs

times_lem_example : times python flapping ≡ record {
  reachable =
      find_first (time_at python "reachable") (session_events flapping "reachable_addrs_changed");
  unreachable =
      find_first (time_at python "unreachable") (session_events flapping "reachable_addrs_changed");
}
times_lem_example = times_lem python flapping

time_to_confidence_partition_example :
    ((c : Confidence) × (compute_time_to_confidence python runs ≡ some c)
      × (c.total ≡ length runs)
      × (runs_of python c.reachable + runs_of python c.unreachable + c.no_convergence ≡ c.total))
    ⊎ ((compute_time_to_confidence python runs ≡ none)
        × (AreTooLarge python (outcomes python runs).reachable_times
            ⊎ AreTooLarge python (outcomes python runs).unreachable_times))
time_to_confidence_partition_example = time_to_confidence_partition python runs

abbrev flip : Flip
flip = record { elapsed_ms = pos 9000; direction = lost }

flip_run : flip_of python flapping ≡ some flip
unfolding compute_time_to_update session_events keep is_text any_reachable lookup elapsed_ms
    coerce_int
flip_run = refl

flip_of_lem_example :
    ((flip_of python flapping ≡ none)
      × IsSteady python (session_events flapping "reachable_addrs_changed"))
    ⊎ ((f : Flip) × (flip_of python flapping ≡ some f)
        × IsFlip python (session_events flapping "reachable_addrs_changed") f)
flip_of_lem_example = flip_of_lem python flapping

no_flip_run : flip_of python silent ≡ none
unfolding compute_time_to_update session_events keep is_text any_reachable lookup
no_flip_run = refl

runs_estimated : AllEstimated python runs
unfolding probe_byte_estimate estimate_of addrs_of lookup
runs_estimated = (((_, refl), tt), (((_, refl), tt), (((_, refl), tt), tt)))

tally_loop_lem_example :
    (t : Tally) × (tally_loop python runs empty_tally ≡ some t) × IsTally (length runs) t
tally_loop_lem_example = tally_loop_lem python runs runs_estimated

compute_protocol_overhead_lem_example :
    (t : Tally) × (tally_loop python runs empty_tally ≡ some t)
    × (((o : Overhead) × (compute_protocol_overhead python runs ≡ some o)
          × (o.total ≡ length runs)
          × IsPercentage (amplified_of t) t.total_probes o.amplification_triggered_pct)
        ⊎ ((compute_protocol_overhead python runs ≡ none)
            × AnyOf (AreHuge python) (lists_of python t)))
compute_protocol_overhead_lem_example = compute_protocol_overhead_lem python runs runs_estimated

-- A request for one metric of two names, over a file that is a trace and one that is not there.
abbrev lines_of : String → List String
lines_of path = if path == "a.json" then lines else []

options_run :
    parse_options ("--metric" ∷ "fnr, fnr" ∷ "--output" ∷ "json" ∷ "a.json" ∷ []) no_options
    ≡ some (record {
      requested_metrics = "fnr" ∷ "fnr" ∷ [];
      output_format = "json";
      files = "a.json" ∷ [];
    })
unfolding parse_options requested split strip
options_run = refl
