-- ===== src/Runner/Run/Lifecycle.antt =====
-- A run's effects are a run of the containers' state machine.
use autonat_project.Base.{ℕ, String, Bool, true, false, Option, none, some, List, [], ◌∷◌}
use autonat_project.Base.Int.{ℤ}
use autonat_project.Base.Dict.{lookup}
use autonat_project.Json.{Json, Python}
use autonat_project.Scenario.Defs.{Scenario, Toggle, Assertion}
use autonat_project.Scenario.Profiles.{get_profiles}
use autonat_project.Runner.Toggles.{Outcome, executed}
use autonat_project.Runner.Effects.Laws.{
  Containers, absent, running, Step, sets_env, stops, starts, toggles, Leads, Leads-bind,
  Leads-then, Leads-return, Leads-succeeds, Leads-all_files, Leads-emit, Leads-write_file,
  Leads-lift, Leads-fuelled,
}
use autonat_project.Runner.Effects.{down}
use autonat_project.Runner.Run.{
  Seen, toggles_of, observed, toggled, save_trace, save_toggles, judge, check_file,
  check_assertions, while_up, run_scenario, or_none,
}

toggles_of-Leads :
    (ps : List String) (actions : List String)
    → Leads (running ps) (toggles_of actions) (running ps)
toggles_of-Leads ps [] = Leads-return _ tt
toggles_of-Leads ps (a ∷ actions) =
    Leads-then _ (Leads-emit (toggles ps a)) (toggles_of-Leads ps actions)

observed-Leads :
    (c : Containers) (fuel : ℕ) (o : Seen) (obs : Option ℤ) (b : Bool)
    → Leads c (observed fuel o obs b) c
unfolding observed
observed-Leads c fuel o none b = Leads-return c []
observed-Leads c fuel o (some n) false = Leads-return c []
observed-Leads c fuel o (some n) true = Leads-fuelled c _

toggled-Leads :
    (ps : List String) (fuel : ℕ) (o : Seen) (ts : List Toggle)
    → Leads (running ps) (toggled fuel o ts) (running ps)
unfolding toggled
toggled-Leads ps fuel o [] = Leads-return _ []
toggled-Leads ps fuel o (t ∷ ts) =
    Leads-bind _ (Leads-fuelled _ _)
      (λ r. Leads-then _ (toggles_of-Leads ps (executed r.0)) (Leads-lift _ r.1))

module _ (py : Python) (pretty : Json → String) (str_int : ℤ → String) (c : Containers) where
  save_trace-Leads :
      (path : String) (spans : List Json) → Leads c (save_trace py pretty str_int path spans) c
  unfolding save_trace
  save_trace-Leads path [] = Leads-return c tt
  save_trace-Leads path (v ∷ vs) = Leads-write_file c path _

  save_toggles-Leads :
      (path : String) (o : Seen) (rs : List Outcome)
      → Leads c (save_toggles py pretty str_int path o rs) c
  unfolding save_toggles
  save_toggles-Leads path o [] = Leads-return c tt
  save_toggles-Leads path o (r ∷ rs) = Leads-write_file c _ _

  judge-Leads :
      (path : String) (o : Seen) (assertions : List Assertion) (lines : List String)
      → Leads c (judge py pretty str_int path o assertions lines) c
  unfolding judge
  judge-Leads path o assertions lines =
      Leads-bind c (Leads-lift c _) (λ r. Leads-then c (Leads-write_file c _ _) (Leads-return c _))

  check_file-Leads :
      (path : String) (o : Seen) (assertions : List Assertion) (there : Option (List String))
      → Leads c (check_file py pretty str_int path o assertions there) c
  unfolding check_file
  check_file-Leads path o [] there = Leads-return c true
  check_file-Leads path o (a ∷ as') none = Leads-return c true
  check_file-Leads path o (a ∷ as') (some lines) = judge-Leads path o (a ∷ as') lines

  check_assertions-Leads :
      (path : String) (o : Seen) (assertions : List Assertion)
      → Leads c (check_assertions py pretty str_int path o assertions) c
  unfolding check_assertions
  check_assertions-Leads path o assertions =
      Leads-bind c (Leads-all_files c)
        (λ files. check_file-Leads path o assertions (lookup path files))

module _ (py : Python) (pretty : Json → String) (str_int : ℤ → String) where
  while_up-Leads :
      (ps : List String) (fuel : ℕ) (o : Seen) (s : Scenario) (path : String)
      → Leads (running ps) (while_up py pretty str_int fuel o s path) (running ps)
  unfolding while_up
  while_up-Leads ps fuel o s path = Leads-bind _ (Leads-fuelled _ _) (λ ready.
      Leads-bind _ (Leads-fuelled _ _) (λ healthy. Leads-bind _ (Leads-fuelled _ _) (λ r.
        Leads-bind _ (observed-Leads _ fuel o _ (r.0)) (λ acc.
          Leads-bind _ (toggled-Leads ps fuel o (or_none s.dynamic_toggles)) (λ rs.
            Leads-then _ (save_trace-Leads py pretty str_int _ path _) (
              Leads-then _ (save_toggles-Leads py pretty str_int _ path o rs)
                (check_assertions-Leads py pretty str_int _ path o (or_none s.assertions))))))))

  -- From a state that removing the scenario's containers clears (there are none, or they were started
  -- with its profiles), the effects of a run are a run of the containers' state machine: they are
  -- started only when there are none, the router is changed only while they run, and they are
  -- removed with the profiles that they were started with. A run that comes to its end leaves no
  -- container. One that raises an exception, or that a loop leaves without fuel, is such a run up to
  -- that point.
  pub run_scenario-Leads :
      (c : Containers) (fuel : ℕ) (o : Seen) (s : Scenario) (path : String)
      → Step c (down (get_profiles s)) absent
      → Leads c (run_scenario py pretty str_int fuel o s path) absent
  unfolding run_scenario
  run_scenario-Leads c fuel o s path clears_c = Leads-bind c (Leads-lift c _) (λ env.
      Leads-then c (Leads-emit (sets_env c env)) (
        Leads-then _ (Leads-emit clears_c) (
          Leads-then _ (Leads-emit (starts (get_profiles s))) (
            Leads-then _ (Leads-succeeds _ o.up_succeeds) (
              Leads-bind _ (while_up-Leads (get_profiles s) fuel o s path)
                (λ b. Leads-then _ (Leads-emit (stops (get_profiles s))) (Leads-return _ b)))))))
