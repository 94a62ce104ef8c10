-- ===== src/Runner/Run/Judged.antt =====
-- A run whose assertions are evaluated on its trace.
use mathlib.Core.List.{append_assoc}
use mathlib.Core.Path.{subst}
use autonat_project.Base.{
  ℕ, suc, String, ◌<>◌, ◌≡◌, refl, ◌∙◌, ◌==◌, Bool, true, false, not, Option, none, some, List, [],
  ◌∷◌, ◌++◌, map, OneOf, count, ltb, arith, any, Bool-cases, if◌then◌else◌, eq_iff, inl, inr, eqb,
}
use autonat_project.Base.Int.{ℤ}
use autonat_project.Base.Dict.{Dict, insert, lookup-insert}
use autonat_project.Base.Text.{replace}
use autonat_project.Json.{Json, Python, list, items}
use autonat_project.Scenario.Defs.{
  Scenario, Assertion, Probability, is_one_of, valid_assertion_types,
}
use autonat_project.Scenario.Validate.{validate_one}
use autonat_project.Scenario.Validate.Accepts.{validate_one_iff, TypesOk}
use autonat_project.Scenario.Validate.Checks.{Given, member_passes}
use autonat_project.Scenario.Environment.{build_env}
use autonat_project.Scenario.Environment.Laws.{build_env_valid}
use autonat_project.Scenario.Profiles.{get_profiles}
use autonat_project.Trace.Attrs.{traverse}
use autonat_project.Assertions.Load.{Flat, load_events}
use autonat_project.Assertions.Evaluate.{Verdict, passes, evaluate}
use autonat_project.Assertions.Program.{verdict_json}
use autonat_project.Runner.Jaeger.{JaegerSpan, export_trace_jsonl}
use autonat_project.Runner.Evaluation.{sent, run_assertions}
use autonat_project.Runner.Evaluation.Laws.{
  as_evaluated, IsTyped, IsSent, IsPrinted, run_assertions_lem,
}
use autonat_project.Runner.Effects.{
  set_env, down, up, save, World, done, ◌>>=◌, ◌>>◌, return, write_file, all_files, lift,
}
use autonat_project.Runner.Run.{
  Seen, save_trace, save_toggles, judge, check_file, check_assertions, run_scenario, or_none,
}
use autonat_project.Runner.Run.Plain.{
  IsTimed, IsPlain, finished, while_up-IsPlain, run_scenario-started,
}

OneOf-IsTyped : (t : String) → OneOf t valid_assertion_types → (t == "") ≡ false
unfolding any
OneOf-IsTyped t h = elim (Bool-cases (t == "")) [
  | inr e ↦ e
  | inl e ↦
      let fails : not (is_one_of "" valid_assertion_types) ≡ false =
        subst (λ (x : String). not (is_one_of x valid_assertion_types) ≡ false) ((eq_iff t "").0 e)
          (member_passes t valid_assertion_types h) in
      absurd (ground arith)
]

TypesOk-IsTyped : (as' : List Assertion) → TypesOk as' → IsTyped as'
TypesOk-IsTyped [] h = tt
TypesOk-IsTyped (a ∷ as') (h, hs) = (OneOf-IsTyped a.type h, TypesOk-IsTyped as' hs)

Given-IsTyped : (o : Option (List Assertion)) → Given o TypesOk → IsTyped (or_none o)
Given-IsTyped none h = tt
Given-IsTyped (some as') h = TypesOk-IsTyped as' h

module _ (py : Python) (pretty : Json → String) (str_int : ℤ → String) where
  -- The lines of a trace file.
  abbrev pub trace_lines : List JaegerSpan → List String
  trace_lines spans = map (λ span. py.dumps span <> "\n") (export_trace_jsonl py spans)

  -- A run's files once its assertions are judged.
  abbrev pub judged_files :
      String → List String → List Verdict → Dict (List String) → Dict (List String)
  judged_files path lines verdicts files =
      insert (replace ".json" ".assertions.json" path)
        (pretty (list (items (map verdict_json verdicts))) ∷ []) (insert path lines files)

  abbrev pub all_pass : List Verdict → Bool
  all_pass verdicts = eqb (count (λ v. not (passes v)) verdicts) 0

  all_pass-ltb : (n : ℕ) → (if ltb 0 n then false else true) ≡ eqb n 0
  all_pass-ltb n = ground arith

  saved_then_judged :
      (o : Seen) (path : String) (spans : List JaegerSpan) (assertions : List Assertion)
      (verdicts : List Verdict) (w : World)
      → ¬ (spans ≡ [])
      → ¬ (assertions ≡ [])
      → run_assertions py pretty o.has_script assertions (trace_lines spans)
        ≡ some (map verdict_json verdicts, count (λ v. not (passes v)) verdicts)
      → (save_trace py pretty str_int path (export_trace_jsonl py spans)
            >> (save_toggles py pretty str_int path o []
                >> check_assertions py pretty str_int path o assertions))
          w
        ≡ (
          done (all_pass verdicts),
          record {
            files = judged_files path (trace_lines spans) verdicts w.files;
            log = w.log ++ save path ∷ save (replace ".json" ".assertions.json" path) ∷ [];
          },
        )
  unfolding ◌>>=◌ ◌>>◌ save_trace save_toggles check_assertions check_file judge all_files return
      lift write_file export_trace_jsonl
  saved_then_judged o path [] assertions verdicts w h g result = absurd (h refl)
  saved_then_judged o path (s ∷ spans) [] verdicts w h g result = absurd (g refl)
  saved_then_judged o path (s ∷ spans) (a ∷ as') verdicts w h g result =
      rw
        (
          lookup-insert path path (trace_lines (s ∷ spans)) w.files,
          (eq_iff path path).1 refl,
          result,
          all_pass-ltb (count (λ v. not (passes v)) verdicts),
          append_assoc w.log (save path ∷ []) (save (replace ".json" ".assertions.json" path) ∷ []),
        )
        refl

  -- A valid scenario with assertions, but without toggles and observation, for which Jaeger has
  -- spans, passes exactly when each of its assertions passes on the exported spans. The files are
  -- then the trace and the results of `evaluate`, and the containers are removed. The trace must
  -- load, the assertions must be evaluated without an exception, and the JSON that the two programs
  -- exchange must be read as it was written.
  pub passes-verdicts :
      (in_unit : Probability → Bool) (fuel : ℕ) (o : Seen) (s : Scenario) (path : String)
      (w : World) (events : List Flat) (verdicts : List Verdict)
      → validate_one in_unit s ≡ none
      → o.up_succeeds ≡ true
      → o.has_script ≡ true
      → IsTimed fuel o s
      → IsPlain s
      → ¬ (o.last_spans ≡ [])
      → ¬ (or_none s.assertions ≡ [])
      → IsSent py pretty (map sent (or_none s.assertions))
      → IsPrinted py pretty (map verdict_json verdicts)
      → load_events py (trace_lines o.last_spans) ≡ some events
      → traverse (λ a. evaluate py (as_evaluated a) events) (or_none s.assertions) ≡ some verdicts
      → (env : Dict String) × (build_env str_int s ≡ some env)
        × (run_scenario py pretty str_int (suc fuel) o s path w ≡ (
          done (all_pass verdicts),
          record {
            files = judged_files path (trace_lines o.last_spans) verdicts w.files;
            log =
                w.log
                ++ set_env env
                  ∷ down (get_profiles s)
                  ∷ up (get_profiles s)
                  ∷ save path
                  ∷ save (replace ".json" ".assertions.json" path)
                  ∷ down (get_profiles s)
                  ∷ [];
          },
        ))
  passes-verdicts in_unit fuel o s path w events verdicts valid started script timed plain spans
        asserts is_sent is_printed loaded result =
      let (env, built, _, _, _, _, _, _) = build_env_valid in_unit str_int s valid in
      let (_, (_, (_, (_, (_, (_, (_, (_, types)))))))) = (validate_one_iff in_unit s).0 valid in
      let ps = get_profiles s in
      let up_world = finished w (set_env env ∷ down ps ∷ up ps ∷ []) in
      let judged =
        run_assertions_lem py pretty (or_none s.assertions) (trace_lines o.last_spans) events
          verdicts (Given-IsTyped s.assertions types) is_sent is_printed loaded result in
      let h =
        while_up-IsPlain py pretty str_int fuel o s path up_world timed plain
        ∙ saved_then_judged o path o.last_spans (or_none s.assertions) verdicts up_world spans
            asserts (rw script judged) in
      (
        env,
        built,
        run_scenario-started py pretty str_int (suc fuel) o s path w env _ _ started built h
            ∙ rw
                (
                  append_assoc w.log (set_env env ∷ down ps ∷ up ps ∷ [])
                      (save path ∷ save (replace ".json" ".assertions.json" path) ∷ []),
                  append_assoc w.log
                      (set_env env
                        ∷ down ps
                        ∷ up ps
                        ∷ save path
                        ∷ save (replace ".json" ".assertions.json" path)
                        ∷ [])
                      (down ps ∷ []),
                )
                refl,
      )
