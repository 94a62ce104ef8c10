-- ===== src/Runner/Run.antt =====
-- `run_scenario` of testbed/run.py: one run of a scenario. What the run sees of the clocks, of docker
-- and of Jaeger is a record; the prints and the client's log are left out.
pub mod Lifecycle
pub mod Plain
pub mod Passes
pub mod Judged
use autonat_project.Base.{
  ℕ, ◌+◌, String, ◌<>◌, Bool, true, false, Option, none, some, List, [], ◌∷◌, ◌++◌, map, ltb,
  if◌then◌else◌, ◌&&◌,
}
use autonat_project.Base.Int.{ℤ, pos}
use autonat_project.Base.Dict.{Dict, lookup}
use autonat_project.Base.Text.{replace}
use autonat_project.Json.{
  Json, Fields, Python, int, bool, str, list, dict, items, end, field, truthy,
}
use autonat_project.Scenario.Defs.{Scenario, Toggle, Assertion}
use autonat_project.Scenario.Profiles.{get_profiles}
use autonat_project.Scenario.Environment.{build_env}
use autonat_project.Runner.Jaeger.{JaegerSpan, has_convergence_span, export_trace_jsonl}
use autonat_project.Runner.Waits.{Clock, wait_for_convergence}
use autonat_project.Runner.Ready.{wait_ready, wait_for_healthy, observe}
use autonat_project.Runner.Toggles.{Phase, Outcome, run_toggles, executed}
use autonat_project.Runner.Evaluation.{run_assertions}
use autonat_project.Runner.Effects.{
  Effect, set_env, down, up, toggle, M, ◌>>=◌, ◌>>◌, return, throw, succeeds, all_files, emit,
  write_file, lift, fuelled,
}

-- What a run sees: whether `dc.up` succeeds and the evaluation script is there, and for each wait
-- its clock and what its rounds find.
pub record Seen : Type 0 where
  pub up_succeeds : Bool
  pub has_script : Bool
  pub ready_clock : Clock
  pub answers : ℕ → Bool
  pub health_clock : Clock
  pub containers : ℕ → List Fields
  pub clock : Clock
  pub spans : ℕ → List JaegerSpan
  pub observe_clock : Clock
  pub observed_spans : ℕ → List JaegerSpan
  pub phases : ℕ → Phase
  pub toggle_utc : ℕ → String
  pub last_spans : List JaegerSpan

-- `s.dynamic_toggles` and `s.assertions`, as a list
abbrev pub or_none {ℓ} : {A : Type ℓ} → Option (List A) → List A
or_none none = []
or_none (some xs) = xs

-- `s.observe_after_convergence_s`, where None and 0 are both false.
abbrev pub observe_seconds : Option ℤ → Option ℤ
observe_seconds none = none
observe_seconds (some n) = if truthy (int n) then some n else none

-- The changes of the router.
abbrev pub toggles_of : List String → M (Unit {0})
toggles_of [] = return tt
toggles_of (action ∷ actions) = do emit (toggle action); toggles_of actions

-- An entry of the toggle results.
unfoldable pub outcome_json : (ℕ → String) → Outcome → Json
outcome_json utc r = dict (
    field "phase" (int (pos r.phase)) (
      field "action" (str r.action) (
        field "detected" (bool r.detected) (
          field "time_to_detect_s" (int (pos r.time_to_detect_s))
            (field "toggle_utc" (str (utc r.phase)) end)))))

-- The observation after a convergence.
unfoldable pub observed : ℕ → Seen → Option ℤ → Bool → M (List JaegerSpan)
observed fuel o none converged = return []
observed fuel o (some obs) false = return []
observed fuel o (some obs) true = fuelled (observe fuel obs o.observe_clock o.observed_spans 0 [])

-- The dynamic toggles, if there are any.
unfoldable pub toggled : ℕ → Seen → List Toggle → M (List Outcome)
toggled fuel o [] = return []
toggled fuel o (t ∷ ts) = do
  (effects, results) ← fuelled (run_toggles fuel o.phases (t ∷ ts))
  toggles_of (executed effects)
  lift results

-- `accumulated_spans or jaeger.export_trace_jsonl(run_start)`
abbrev pub spans_or {ℓ} : {A : Type ℓ} → List A → List A → List A
spans_or [] otherwise = otherwise
spans_or (s ∷ spans) otherwise = s ∷ spans

module _ (py : Python) (pretty : Json → String) (str_int : ℤ → String) where
  -- The trace file, if there are spans.
  unfoldable pub save_trace : String → List Json → M (Unit {0})
  save_trace path [] = return tt
  save_trace path (v ∷ vs) = write_file path (map (λ span. py.dumps span <> "\n") (v ∷ vs))

  -- The toggle results, if there are any.
  unfoldable pub save_toggles : String → Seen → List Outcome → M (Unit {0})
  save_toggles path o [] = return tt
  save_toggles path o (r ∷ rs) =
      write_file (replace ".json" ".toggles.json" path)
        (pretty (list (items (map (outcome_json o.toggle_utc) (r ∷ rs)))) ∷ [])

  -- The assertions on a trace file that is there, with their result file.
  unfoldable pub judge : String → Seen → List Assertion → List String → M Bool
  judge path o assertions lines = do
    (results, fail_count) ← lift (run_assertions py pretty o.has_script assertions lines)
    write_file (replace ".json" ".assertions.json" path) (pretty (list (items results)) ∷ [])
    return (if ltb 0 fail_count then false else true)

  -- `if s.assertions and os.path.exists(result_file)`
  unfoldable pub check_file : String → Seen → List Assertion → Option (List String) → M Bool
  unfolding judge
  check_file path o [] there = return true
  check_file path o (a ∷ as') none = return true
  check_file path o (a ∷ as') (some lines) = judge path o (a ∷ as') lines

  unfoldable pub check_assertions : String → Seen → List Assertion → M Bool
  unfolding check_file
  check_assertions path o assertions = do
    files ← all_files
    check_file path o assertions (lookup path files)

  -- From the start of the containers to the assertions.
  unfoldable pub while_up : ℕ → Seen → Scenario → String → M Bool
  while_up fuel o s result_file = do
    ready ← fuelled (wait_ready fuel o.ready_clock o.answers (pos 30))
    healthy ← fuelled (wait_for_healthy fuel o.health_clock o.containers (pos 60))
    (converged, elapsed) ←
        fuelled
          (wait_for_convergence fuel o.clock (λ k. has_convergence_span (o.spans k)) s.timeout_s)
    accumulated ← observed fuel o (observe_seconds s.observe_after_convergence_s) converged
    toggle_results ← toggled fuel o (or_none s.dynamic_toggles)
    save_trace result_file (export_trace_jsonl py (spans_or accumulated o.last_spans))
    save_toggles result_file o toggle_results
    check_assertions result_file o (or_none s.assertions)

  unfoldable pub run_scenario : ℕ → Seen → Scenario → String → M Bool
  run_scenario fuel o s result_file = do
    let profiles = get_profiles s
    env ← lift (build_env str_int s)
    emit (set_env env)
    emit (down profiles)
    emit (up profiles)
    succeeds o.up_succeeds
    run_pass ← while_up fuel o s result_file
    emit (down profiles)
    return run_pass
