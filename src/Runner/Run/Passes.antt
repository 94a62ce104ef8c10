-- ===== src/Runner/Run/Passes.antt =====
-- When a run without toggles and without an observation passes.
use mathlib.Core.List.{append_assoc}
use autonat_project.Base.{ℕ, suc, String, ◌≡◌, refl, ◌∙◌, ap, Bool, true, none, some, List, [], ◌∷◌}
use autonat_project.Base.Int.{ℤ}
use autonat_project.Base.Dict.{Dict, lookup}
use autonat_project.Json.{Json, Python}
use autonat_project.Scenario.Defs.{Scenario, Assertion, Probability}
use autonat_project.Scenario.Validate.{validate_one}
use autonat_project.Scenario.Environment.{build_env}
use autonat_project.Scenario.Environment.Laws.{build_env_valid}
use autonat_project.Scenario.Profiles.{get_profiles}
use autonat_project.Runner.Jaeger.{JaegerSpan, export_trace_jsonl}
use autonat_project.Runner.Effects.{
  Effect, set_env, down, up, World, done, ◌>>=◌, ◌>>◌, return, write_file, all_files,
}
use autonat_project.Runner.Run.{
  Seen, save_trace, save_toggles, check_file, check_assertions, while_up, run_scenario, or_none,
}
use autonat_project.Runner.Run.Plain.{
  IsTimed, IsPlain, finished, while_up-IsPlain, run_scenario-started,
}

module _ (py : Python) (pretty : Json → String) (str_int : ℤ → String) where
  check_file-none :
      (path : String) (o : Seen) (as' : List Assertion)
      → check_file py pretty str_int path o as' none ≡ return true
  unfolding check_file
  check_file-none path o [] = refl
  check_file-none path o (a ∷ as') = refl

  -- A valid scenario without toggles and observation, for which Jaeger has no spans and no file is
  -- left from an earlier run, passes, whatever it asserts: none of its assertions is evaluated.
  pub passes-no_spans :
      (in_unit : Probability → Bool) (fuel : ℕ) (o : Seen) (s : Scenario) (path : String)
      (w : World)
      → validate_one in_unit s ≡ none
      → o.up_succeeds ≡ true
      → IsTimed fuel o s
      → IsPlain s
      → o.last_spans ≡ []
      → lookup path w.files ≡ none
      → (env : Dict String) × (build_env str_int s ≡ some env)
        × (run_scenario py pretty str_int (suc fuel) o s path w ≡ (
          done true,
          finished w (
              set_env env
              ∷ down (get_profiles s)
              ∷ up (get_profiles s)
              ∷ down (get_profiles s)
              ∷ []),
        ))
  unfolding ◌>>=◌ ◌>>◌ save_trace save_toggles check_assertions all_files return export_trace_jsonl
  passes-no_spans in_unit fuel o s path w valid started timed plain no_spans no_file =
      let (env, built, _, _, _, _, _, _) = build_env_valid in_unit str_int s valid in
      let ps = get_profiles s in
      let up_world = finished w (set_env env ∷ down ps ∷ up ps ∷ []) in
      let h : while_up py pretty str_int (suc fuel) o s path up_world ≡ (done true, up_world) =
        while_up-IsPlain py pretty str_int fuel o s path up_world timed plain
        ∙ rw (no_spans, no_file, check_file-none) refl in
      (
        env,
        built,
        run_scenario-started py pretty str_int (suc fuel) o s path w env true up_world started built
              h
            ∙ ap (λ (log : List Effect). (done true, record w { log = log }))
                (append_assoc w.log (set_env env ∷ down ps ∷ up ps ∷ []) (down ps ∷ [])),
      )

  saved_then_none :
      (o : Seen) (path : String) (spans : List JaegerSpan) (w : World)
      → (v : World) × ((save_trace py pretty str_int path (export_trace_jsonl py spans)
              >> (save_toggles py pretty str_int path o []
                  >> check_assertions py pretty str_int path o []))
            w
          ≡ (done true, v))
  unfolding ◌>>=◌ ◌>>◌ save_trace save_toggles check_assertions check_file all_files return
      write_file export_trace_jsonl
  saved_then_none o path [] w = (w, refl)
  saved_then_none o path (s ∷ spans) w = (_, refl)

  -- One without assertions passes, whatever Jaeger has.
  pub passes-no_assertions :
      (in_unit : Probability → Bool) (fuel : ℕ) (o : Seen) (s : Scenario) (path : String)
      (w : World)
      → validate_one in_unit s ≡ none
      → o.up_succeeds ≡ true
      → IsTimed fuel o s
      → IsPlain s
      → or_none s.assertions ≡ []
      → (v : World) × (run_scenario py pretty str_int (suc fuel) o s path w ≡ (done true, v))
  passes-no_assertions in_unit fuel o s path w valid started timed plain asserts =
      let (env, built, _, _, _, _, _, _) = build_env_valid in_unit str_int s valid in
      let up_world = finished w (set_env env ∷ down (get_profiles s) ∷ up (get_profiles s) ∷ []) in
      let (v, e) = saved_then_none o path o.last_spans up_world in
      (
        _,
        run_scenario-started py pretty str_int (suc fuel) o s path w env true v started built
            (while_up-IsPlain py pretty str_int fuel o s path up_world timed plain ∙ rw asserts e),
      )
