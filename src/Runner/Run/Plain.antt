-- ===== src/Runner/Run/Plain.antt =====
-- A run without toggles and without an observation, up to its files and assertions.
use mathlib.Core.List.{append_assoc}
use autonat_project.Base.{
  ℕ, suc, ◌*◌, ◌≤◌, String, ◌≡◌, refl, Bool, true, none, some, List, [], ◌∷◌, ◌++◌, arith,
}
use autonat_project.Base.Int.{ℤ, pos, ◌≤ℤ◌}
use autonat_project.Base.Dict.{Dict}
use autonat_project.Json.{Json, Python}
use autonat_project.Scenario.Defs.{Scenario}
use autonat_project.Scenario.Environment.{build_env}
use autonat_project.Scenario.Profiles.{get_profiles}
use autonat_project.Runner.Jaeger.{has_convergence_span, export_trace_jsonl}
use autonat_project.Runner.Waits.Laws.{Sleeps, wait_for_convergence_lem}
use autonat_project.Runner.Ready.Laws.{SleepsFor, wait_ready_lem, wait_for_healthy_lem}
use autonat_project.Runner.Effects.{
  Effect, set_env, down, up, World, done, ◌>>=◌, ◌>>◌, return, emit, lift, fuelled, succeeds,
}
use autonat_project.Runner.Run.{
  Seen, observed, toggled, save_trace, save_toggles, check_assertions, while_up, run_scenario,
  observe_seconds, or_none,
}

-- The clocks of a run advance by the sleeps between their readings, and the fuel covers the
-- timeouts.
pub record IsTimed (fuel : ℕ) (o : Seen) (s : Scenario) : Type 0 where
  pub ready : SleepsFor 1 o.ready_clock
  pub healthy : SleepsFor 2 o.health_clock
  pub converging : Sleeps o.clock
  pub half_minute : 30 ≤ fuel
  pub enough : s.timeout_s ≤ℤ pos (3 * fuel)

-- No dynamic toggles, and no observation after the convergence.
pub record IsPlain (s : Scenario) : Type 0 where
  pub no_toggles : or_none s.dynamic_toggles ≡ []
  pub no_observation : observe_seconds s.observe_after_convergence_s ≡ none

abbrev pub finished : World → List Effect → World
finished w log = record w { log = w.log ++ log }

module _ (py : Python) (pretty : Json → String) (str_int : ℤ → String) where
  -- The waits return, so a plain run comes to its files and assertions.
  pub while_up-IsPlain :
      (fuel : ℕ) (o : Seen) (s : Scenario) (path : String) (w : World)
      → IsTimed fuel o s
      → IsPlain s
      → while_up py pretty str_int (suc fuel) o s path w
        ≡ (save_trace py pretty str_int path (export_trace_jsonl py o.last_spans)
              >> (save_toggles py pretty str_int path o []
                  >> check_assertions py pretty str_int path o (or_none s.assertions)))
            w
  unfolding while_up ◌>>=◌ fuelled observed toggled return
  while_up-IsPlain fuel o s path w timed plain =
      let (b, e, eq, _) =
        wait_ready_lem fuel o.ready_clock o.answers (pos 30) timed.ready
          (omega (arith, timed.half_minute)) in
      let (c, f, fq, _) =
        wait_for_healthy_lem fuel o.health_clock o.containers (pos 60) timed.healthy
          (omega (arith, timed.half_minute)) in
      let (d, g, gq, _) =
        wait_for_convergence_lem fuel o.clock (λ k. has_convergence_span (o.spans k)) s.timeout_s
          timed.converging timed.enough in
      rw (eq, fq, gq, plain.no_toggles, plain.no_observation) refl

  succeeds-true : (b : Bool) → b ≡ true → succeeds b ≡ return tt
  unfolding succeeds
  succeeds-true b h = rw h refl

  -- The rest of a run, once its environment is built and its containers are up.
  pub run_scenario-started :
      (fuel : ℕ) (o : Seen) (s : Scenario) (path : String) (w : World) (env : Dict String)
      (b : Bool) (after : World)
      → o.up_succeeds ≡ true
      → build_env str_int s ≡ some env
      → while_up py pretty str_int fuel o s path
          (finished w (set_env env ∷ down (get_profiles s) ∷ up (get_profiles s) ∷ []))
        ≡ (done b, after)
      → run_scenario py pretty str_int fuel o s path w
        ≡ (done b, finished after (down (get_profiles s) ∷ []))
  unfolding run_scenario ◌>>=◌ ◌>>◌ lift emit return
  run_scenario-started fuel o s path w env b after started built h =
      rw
        (
          built,
          succeeds-true o.up_succeeds started,
          append_assoc w.log (set_env env ∷ []) (down (get_profiles s) ∷ []),
          append_assoc w.log (set_env env ∷ down (get_profiles s) ∷ []) (up (get_profiles s) ∷ []),
          h,
        )
        refl
