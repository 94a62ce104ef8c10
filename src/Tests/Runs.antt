-- ===== src/Tests/Runs.antt =====
-- Runs of a scenario with four servers: with a convergence span, and with none.
use autonat_project.Base.{
  ◌*◌, String, ◌≡◌, refl, true, false, not, none, some, List, [], ◌∷◌, map, ◌==◌, arith, count,
  if◌then◌else◌, any,
}
use autonat_project.Base.Int.{◌≤ℤ◌, pos}
use autonat_project.Base.Dict.{Dict, lookup, insert}
use autonat_project.Base.Text.{strip, replace, isdigit}
use autonat_project.Json.{Json, str, list, items, Python, truthy, iterate, field?, is_text}
use autonat_project.Scenario.Defs.{Scenario, Assertion}
use autonat_project.Scenario.Validate.{
  validate, each, validate_one, server_count_fails, port_remap_fails, block_port_fails,
}
use autonat_project.Scenario.Environment.{build_env}
use autonat_project.Scenario.Profiles.{get_profiles}
use autonat_project.Trace.Attrs.{
  traverse, flatten_attrs, rounds, attr_of, flatten_loop, extract_value,
}
use autonat_project.Assertions.Load.{Flat, load_events}
use autonat_project.Assertions.Evaluate.{Verdict, checked, passes, evaluate}
use autonat_project.Assertions.Program.{verdict_json}
use autonat_project.Runner.Jaeger.{JaegerSpan, typed, as_int, export_span, export_trace_jsonl}
use autonat_project.Runner.Evaluation.{sent, run_assertions}
use autonat_project.Runner.Evaluation.Laws.{as_evaluated, run_assertions_lem}
use autonat_project.Runner.Effects.{World, set_env, down, up, save, done}
use autonat_project.Runner.Run.{Seen, run_scenario}
use autonat_project.Runner.Run.Plain.{IsTimed, IsPlain, finished}
use autonat_project.Runner.Run.Passes.{passes-no_spans}
use autonat_project.Runner.Run.Judged.{trace_lines, judged_files, all_pass, passes-verdicts}
use autonat_project.Runner.Effects.Laws.{Leads, absent, clears}
use autonat_project.Runner.Run.Lifecycle.{run_scenario-Leads}
use autonat_project.Tests.Scenarios.{four_servers, str_int, in_unit}
use autonat_project.Tests.Fixtures.{python}
use autonat_project.Tests.Waits.{world}

abbrev converges : Assertion
converges = record {
  type = "has_event";
  event = "reachability_changed";
  filter = [];
  message = "must converge";
  extract = "";
  select = "";
  label = "";
}

abbrev asserting : Scenario
asserting = record four_servers { assertions = some (converges ∷ []) }

asserting_valid : validate_one in_unit asserting ≡ none
unfolding validate each any server_count_fails port_remap_fails block_port_fails
asserting_valid = refl

abbrev converged : Verdict
converged = checked "has_event" true "must converge" 1

abbrev reached : JaegerSpan
reached = record {
  name = str "reachability_changed";
  trace_id = str "t1";
  start_ns = str "0";
  attrs = ("reachability", str "public") ∷ [];
  events = [];
}

-- A JSON library that knows the three texts of a run: the assertions, the span and the results.
abbrev pub json : Python
json = record {
  loads = λ s.
      if s == "A"
      then some (list (items (map sent (converges ∷ []))))
      else if s == "S"
      then some (export_span python reached)
      else if s == "V\n"
      then some (list (items (map verdict_json (converged ∷ []))))
      else none;
  int_of_float = λ f. none;
  to_str = λ v. elim v [ str s ↦ s | _ ↦ "" ];
  dumps = λ v. elim v [ list vs ↦ "A" | _ ↦ "S" ];
  equal = λ v w. false;
  round_mean = λ vs. none;
  round_median = λ vs. none;
  mean_1 = λ vs. none;
  median = λ vs. none;
}

abbrev pub pretty : Json → String
pretty v = "V"

abbrev pub seen_with : List JaegerSpan → Seen
seen_with spans = record {
  up_succeeds = true;
  has_script = true;
  ready_clock = λ k. k;
  answers = λ k. true;
  health_clock = λ k. 2 * k;
  containers = λ k. [];
  clock = λ k. 4 * k;
  spans = λ k. spans;
  observe_clock = λ k. k;
  observed_spans = λ k. [];
  phases = world;
  toggle_utc = λ k. "";
  last_spans = spans;
}

pub timed :
    (spans : List JaegerSpan) (s : Scenario)
    → s.timeout_s ≤ℤ pos 120
    → IsTimed 40 (seen_with spans) s
timed spans s h = record {
  ready = λ k. omega arith;
  healthy = λ k. omega arith;
  converging = λ k. omega arith;
  half_minute = omega arith;
  enough = omega (arith, h);
}

plain : IsPlain asserting
plain = record { no_toggles = refl; no_observation = refl }

abbrev pub empty_world : World
empty_world = record { files = []; log = [] }

none_there : lookup "r.json" empty_world.files ≡ none
unfolding lookup
none_there = refl

-- With no span, the assertion that the client converges is not evaluated.
passes-no_spans_example :
    (env : Dict String) × (build_env str_int asserting ≡ some env)
    × (run_scenario json pretty str_int 41 (seen_with []) asserting "r.json" empty_world ≡ (
      done true,
      finished empty_world (
          set_env env
          ∷ down (get_profiles asserting)
          ∷ up (get_profiles asserting)
          ∷ down (get_profiles asserting)
          ∷ []),
    ))
passes-no_spans_example =
    passes-no_spans json pretty str_int in_unit 40 (seen_with []) asserting "r.json" empty_world
      asserting_valid refl (timed [] asserting (omega arith)) plain refl none_there

abbrev events : List Flat
events =
    (("reachability", str "public")
      ∷ ("type", str "reachability_changed")
      ∷ ("_span_name", str "reachability_changed")
      ∷ ("_time", str "")
      ∷ [])
    ∷ []

events_run : load_events json (trace_lines json pretty str_int (reached ∷ [])) ≡ some events
unfolding load_events export_trace_jsonl field? strip iterate flatten_attrs rounds truthy traverse
    insert attr_of flatten_loop extract_value any is_text lookup typed as_int isdigit
events_run = refl

verdicts_run :
    traverse (λ a. evaluate json (as_evaluated a) events) (converges ∷ []) ≡ some (converged ∷ [])
unfolding evaluate traverse lookup is_text
verdicts_run = refl

passes-verdicts_example :
    (env : Dict String) × (build_env str_int asserting ≡ some env)
    × (run_scenario json pretty str_int 41 (seen_with (reached ∷ [])) asserting "r.json" empty_world
        ≡ (
          done (all_pass json pretty str_int (converged ∷ [])),
          record {
            files =
                judged_files json pretty str_int "r.json"
                  (trace_lines json pretty str_int (reached ∷ []))
                  (converged ∷ [])
                  [];
            log =
                set_env env
                ∷ down (get_profiles asserting)
                ∷ up (get_profiles asserting)
                ∷ save "r.json"
                ∷ save (replace ".json" ".assertions.json" "r.json")
                ∷ down (get_profiles asserting)
                ∷ [];
          },
        ))
passes-verdicts_example =
    passes-verdicts json pretty str_int in_unit 40 (seen_with (reached ∷ [])) asserting "r.json"
      empty_world events (converged ∷ []) asserting_valid refl refl
      (timed (reached ∷ []) asserting (omega arith)) plain (λ e. absurd (cc)) (λ e. absurd (cc))
      refl refl events_run verdicts_run

run_assertions_lem_example :
    run_assertions json pretty true
      (converges ∷ [])
      (trace_lines json pretty str_int (reached ∷ []))
    ≡ some (map verdict_json (converged ∷ []), count (λ v. not (passes v)) (converged ∷ []))
run_assertions_lem_example =
    run_assertions_lem json pretty (converges ∷ []) (trace_lines json pretty str_int (reached ∷ []))
      events (converged ∷ []) (refl, tt) refl refl events_run verdicts_run

run_scenario-Leads_example :
    Leads absent (run_scenario json pretty str_int 41 (seen_with []) asserting "r.json") absent
run_scenario-Leads_example =
    run_scenario-Leads json pretty str_int absent 41 (seen_with []) asserting "r.json"
      (clears (get_profiles asserting))
