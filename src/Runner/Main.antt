-- ===== src/Runner/Main.antt =====
-- `main` of testbed/run.py, from the decoded YAML file on: the options, the runs and their totals,
-- and the exit status. The time stamp, and what is seen of docker, are parameters; the prints are
-- left out.
pub mod Schedule
pub mod Laws
pub mod Lifecycle
use autonat_project.Base.{
  ℕ, zero, suc, ◌+◌, String, ◌<>◌, Bool, true, false, Option, none, some, List, [], ◌∷◌, ltb,
  if◌then◌else◌, ◌==◌,
}
use autonat_project.Base.Int.{ℤ, pos, negsuc}
use autonat_project.Base.Split.{path_join}
use autonat_project.Json.{Json, Python, int, truthy}
use autonat_project.Scenario.Defs.{Scenario, Probability}
use autonat_project.Base.Dict.{Dict}
use autonat_project.Scenario.Schema.Document.{
  both_keys, neither_key, raised, expanded, expand_scenarios,
}
use autonat_project.Scenario.Validate.{validate}
use autonat_project.Scenario.Filter.{apply_filter}
use autonat_project.Scenario.Label.{build_run_label}
use autonat_project.Runner.Effects.{M, ◌>>=◌, return, throw, lift}
use autonat_project.Runner.Run.{Seen, run_scenario}

-- The options of the command line.
pub record Args : Type 0 where
  pub timeout : Option ℤ
  pub runs : Option ℤ
  pub filter : String
  pub output : String
  pub dry_run : Bool

-- `if args.timeout` and `if args.runs`, which None and 0 fail
abbrev override : Option ℤ → ℤ → ℤ
override none n = n
override (some m) n = if truthy (int m) then m else n

-- The overrides, in each scenario.
unfoldable pub overridden : Args → List Scenario → List Scenario
unfolding truthy
overridden args [] = []
overridden args (s ∷ scenarios) =
    record s { timeout_s = override args.timeout s.timeout_s; runs = override args.runs s.runs }
    ∷ overridden args scenarios

pub record Totals : Type 0 where
  pub total_pass : ℕ
  pub total_fail : ℕ
  pub scenario_num : ℕ

-- A run that passed or not.
abbrev pub tally : Bool → Totals → Totals
tally true t = record t { total_pass = t.total_pass + 1; scenario_num = t.scenario_num + 1 }
tally false t = record t { total_fail = t.total_fail + 1; scenario_num = t.scenario_num + 1 }

abbrev pub no_totals : Totals
no_totals = record { total_pass = 0; total_fail = 0; scenario_num = 0 }

-- The length of `range(1, n + 1)`.
abbrev pub range_length : ℤ → ℕ
range_length (pos n) = n
range_length (negsuc n) = 0

module _ (py : Python) (pretty : Json → String) (str_int : ℤ → String) (fuel : ℕ) (seen : ℕ → Seen)
    (result_dir : String) where
  -- The runs of one scenario from number `run_num` on. What a run sees is found by the number of
  -- runs before it.
  unfoldable pub run_times : Scenario → ℕ → ℕ → Totals → M Totals
  run_times s zero run_num t = return t
  run_times s (suc left) run_num t = do
    let label = build_run_label str_int s (pos run_num)
    passed ←
        run_scenario py pretty str_int fuel (seen t.scenario_num) s
          (path_join result_dir (label <> ".json"))
    run_times s left (run_num + 1) (tally passed t)

  unfoldable pub run_all : List Scenario → Totals → M Totals
  run_all [] t = return t
  run_all (s ∷ scenarios) t = do
    totals ← run_times s (range_length s.runs) 1 t
    run_all scenarios totals

-- The exit status of the summary.
abbrev pub exit_status : Totals → ℕ
exit_status t = if ltb 0 t.total_fail then 1 else 0

-- `args.output or f"…"`, where `stamped` is the directory with the time stamp.
abbrev pub result_dir : String → String → String
result_dir output stamped = if output == "" then stamped else output

module _ (py : Python) (pretty : Json → String) (str_int : ℤ → String)
    (in_unit : Probability → Bool) (attribute : Scenario → String → String) (has_docker : Bool)
    (fuel : ℕ) (seen : ℕ → Seen) where
  unfoldable pub with_docker : Bool → String → List Scenario → M ℕ
  with_docker false dir scenarios = return 1
  with_docker true dir scenarios = do
    totals ← run_all py pretty str_int fuel seen dir scenarios no_totals
    return (exit_status totals)

  -- After the filter: the dry run, and no scenario left.
  unfoldable pub after_filter : Bool → String → List Scenario → M ℕ
  unfolding with_docker
  after_filter true dir scenarios = return 0
  after_filter false dir [] = return 0
  after_filter false dir (s ∷ scenarios) = with_docker has_docker dir (s ∷ scenarios)

  -- From the validation on. The result directory is `stamped` without `--output`.
  unfoldable pub after_expansion : String → Args → List Scenario → M ℕ
  unfolding after_filter
  after_expansion stamped args scenarios = elim (validate in_unit scenarios) [
    | some problem ↦ return 1
    | none ↦ (do
      chosen ← lift (apply_filter attribute (overridden args scenarios) args.filter)
      after_filter args.dry_run (result_dir args.output stamped) chosen)
  ]

  -- The exit status of the program.
  unfoldable pub main : String → Args → Dict Json → M ℕ
  unfolding after_expansion
  main timestamp args yaml_data = elim (expand_scenarios py yaml_data) [
    | both_keys ↦ return 1
    | neither_key ↦ return 1
    | raised ↦ throw
    | expanded scenario_name scenarios ↦
        after_expansion ("results/testbed/" <> scenario_name <> "-" <> timestamp) args scenarios
  ]
