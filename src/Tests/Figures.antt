-- ===== src/Tests/Figures.antt =====
-- Rates of the figures over two files.
use autonat_project.Base.{
  String, ◌<>◌, ◌≡◌, refl, true, false, Option, none, some, List, [], ◌∷◌, inl, inr,
}
use autonat_project.Base.Int.{pos, ◌+ℤ◌}
use autonat_project.Base.Text.{replace, int_of_text, strip}
use autonat_project.Base.Split.{contains, split, join}
use autonat_project.Json.{
  field?, iterate, coerce_int, int, dict, field, end, Json, str, list, nil, cons, is_text, truthy,
}
use autonat_project.Figures.Names.{parse_scenario_name}
use autonat_project.Figures.Rates.{File, compute_fnr_fpr, no_rates}
use autonat_project.Figures.Rates.Laws.{NamesLatency, compute_fnr_fpr-local}
use autonat_project.Base.Dict.{lookup, insert}
use autonat_project.Trace.Attrs.{Attrs}
use autonat_project.Metrics.Overhead.{addrs_of}
use autonat_project.Figures.Overhead.{figure_estimate}
use autonat_project.Figures.Detection.{cell_of, false_positive}
use autonat_project.Figures.Timeline.{marks, toggle_detect_pairs}
use autonat_project.Figures.Conditions.{baseline, loss_pct, latency_ms, condition_file}
use autonat_project.Scenario.Label.{build_run_label}
use autonat_project.Scenario.Defs.{Scenario}
use autonat_project.Base.Show.{show}
use autonat_project.Figures.Names.RoundTrip.{parse_scenario_name-build_run_label}
use autonat_project.Tests.Scenarios.{four_servers, str_int}
use autonat_project.Tests.Fixtures.{python}

abbrev no_float : Json → Option Json
no_float v = none

abbrev nats : List String
nats = "none" ∷ "full-cone" ∷ []

-- The names of runs with the default latency, in which nothing was detected.
abbrev files : List File
files = ("none-tcp-7-lat10.json", []) ∷ ("symmetric-quic-7-lat10.json", []) ∷ []

is_local : contains "Baseline\n(local)" "local" ≡ true
unfolding contains
is_local = refl

first-NamesLatency : NamesLatency ("none-tcp-7-lat10.json", [])
unfolding parse_scenario_name split replace join contains int_of_text strip truthy
first-NamesLatency =
    ("none", "tcp", record { latency_ms = some (pos 10); loss_pct = none }, refl, refl)

second-NamesLatency : NamesLatency ("symmetric-quic-7-lat10.json", [])
unfolding parse_scenario_name split replace join contains int_of_text strip truthy
second-NamesLatency =
    ("symmetric", "quic", record { latency_ms = some (pos 10); loss_pct = none }, refl, refl)

compute_fnr_fpr-local_example :
    compute_fnr_fpr python no_float true "Baseline\n(local)" nats files ≡ some no_rates
compute_fnr_fpr-local_example =
    compute_fnr_fpr-local python no_float "Baseline\n(local)" nats files is_local
      (first-NamesLatency, (second-NamesLatency, tt))

-- The probe of a session, without events.
abbrev probe_attrs : Attrs
probe_attrs =
    ("autonat.addrs", list (cons (str "/ip4/73.0.0.10") nil))
    ∷ ("autonat.reachability", str "public")
    ∷ []

estimate_run : figure_estimate python probe_attrs none ≡ some (pos 50, pos 0)
unfolding figure_estimate lookup is_text addrs_of ◌+ℤ◌
estimate_run = refl

-- With its events, a probe that was asked for 4000 bytes of dial data.
abbrev data_events : List Json
data_events =
    dict (
      field "Name" (str "dial_data_requested") (
        field "Attributes"
          (list (
            cons
              (dict (
                field "Key" (str "num_bytes")
                  (field "Value" (dict (field "Value" (int (pos 4000)) end)) end)))
              nil))
          end))
    ∷ []

events_run : figure_estimate python probe_attrs (some data_events) ≡ some (pos 4054, pos 4000)
unfolding figure_estimate lookup is_text addrs_of ◌+ℤ◌ field? iterate coerce_int insert
events_run = refl

cell_run : cell_of false (some (str "public")) ≡ false_positive
unfolding cell_of is_text
cell_run = refl

pairs_run :
    toggle_detect_pairs (
      marks (
        record { action = "add_port_forward"; time_to_detect_s = 12 }
        ∷ record { action = "remove_port_forward"; time_to_detect_s = 40 }
        ∷ []))
    ≡ (30, 42, 12) ∷ (72, 112, 40) ∷ []
unfolding toggle_detect_pairs marks
pairs_run = refl

-- The files that the heat map looks for are named by their conditions.
condition_names_run :
    (parse_scenario_name (condition_file baseline "full-cone" "tcp")
      ≡ some (some ("full-cone", "tcp", record { latency_ms = some (pos 10); loss_pct = none })))
    × (parse_scenario_name (condition_file (loss_pct "10") "port-restricted" "quic")
        ≡ some (
            some (
              "port-restricted",
              "quic",
              record { latency_ms = some (pos 10); loss_pct = some (pos 10) },
            )))
    × (parse_scenario_name (condition_file (latency_ms "500") "symmetric" "tcp")
        ≡ some (some ("symmetric", "tcp", record { latency_ms = some (pos 500); loss_pct = none })))
unfolding parse_scenario_name condition_file split replace join contains int_of_text strip
condition_names_run = (refl, refl, refl)

-- The second run of a Rust client behind a full-cone NAT, with a loss of 5 and a latency of 200.
abbrev rust_run : Scenario
rust_run = record four_servers {
  nat_type = "full-cone";
  transport = "quic";
  packet_loss = pos 5;
  latency_ms = pos 200;
  runs = pos 3;
  client_impl = "rust";
}

parse_scenario_name-build_run_label_example :
    parse_scenario_name (build_run_label show rust_run (pos 2) <> ".json")
    ≡ some (
        some ("full-cone", "quic", record { latency_ms = some (pos 200); loss_pct = some (pos 5) }))
parse_scenario_name-build_run_label_example =
    parse_scenario_name-build_run_label rust_run 5 200 2 refl (inr (inl refl)) (inr (inl refl))
      (inr (inl refl)) (inr (inl refl)) refl refl

rust_label : build_run_label show rust_run (pos 2) ≡ "full-cone-quic-4-rust-loss5-lat200-run2"
unfolding build_run_label show
rust_label = refl

-- So is the result file of a run with the default latency.
label_run :
    parse_scenario_name (build_run_label str_int four_servers (pos 1) <> ".json")
    ≡ some (some ("none", "both", record { latency_ms = some (pos 10); loss_pct = none }))
unfolding build_run_label parse_scenario_name split replace join contains int_of_text strip
label_run = refl
