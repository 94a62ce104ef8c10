-- ===== src/Runner/Main/Lifecycle.antt =====
-- What the runs of the program leave of the containers.
use autonat_project.Base.{
  ◌≡◌, refl, ℕ, zero, suc, ◌+◌, String, Bool, true, false, List, [], ◌∷◌, Option-cases, inl, inr,
}
use autonat_project.Base.Int.{ℤ}
use autonat_project.Json.{Json, Python}
use autonat_project.Scenario.Defs.{Scenario, Probability}
use autonat_project.Scenario.Validate.{validate}
use autonat_project.Base.Dict.{Dict}
use autonat_project.Scenario.Schema.Document.{
  Expansion, both_keys, neither_key, raised, expanded, expand_scenarios,
}
use autonat_project.Scenario.Profiles.{get_profiles}
use autonat_project.Runner.Effects.Laws.{
  absent, clears, Leads, Leads-bind, Leads-return, Leads-throw, Leads-lift,
}
use autonat_project.Runner.Run.{Seen}
use autonat_project.Runner.Run.Lifecycle.{run_scenario-Leads}
use autonat_project.Runner.Main.{
  Args, Totals, tally, range_length, exit_status, run_times, run_all, with_docker, after_filter,
  after_expansion, main,
}

module _ (py : Python) (pretty : Json → String) (str_int : ℤ → String) (fuel : ℕ)
    (seen : ℕ → Seen) where
  run_times-Leads :
      (dir : String) (s : Scenario) (left run_num : ℕ) (t : Totals)
      → Leads absent (run_times py pretty str_int fuel seen dir s left run_num t) absent
  unfolding run_times
  run_times-Leads dir s zero run_num t = Leads-return absent t
  run_times-Leads dir s (suc left) run_num t =
      Leads-bind absent
        (run_scenario-Leads py pretty str_int absent fuel (seen t.scenario_num) s _
          (clears (get_profiles s)))
        (λ b. run_times-Leads dir s left (run_num + 1) (tally b t))

  run_all-Leads :
      (dir : String) (ss : List Scenario) (t : Totals)
      → Leads absent (run_all py pretty str_int fuel seen dir ss t) absent
  unfolding run_all
  run_all-Leads dir [] t = Leads-return absent t
  run_all-Leads dir (s ∷ ss) t =
      Leads-bind absent (run_times-Leads dir s (range_length s.runs) 1 t)
        (λ u. run_all-Leads dir ss u)

  module _ (in_unit : Probability → Bool) (attribute : Scenario → String → String)
      (has_docker : Bool) where
    with_docker-Leads :
        (b : Bool) (dir : String) (ss : List Scenario)
        → Leads absent
            (with_docker py pretty str_int in_unit attribute has_docker fuel seen b dir ss)
            absent
    unfolding with_docker
    with_docker-Leads false dir ss = Leads-return absent 1
    with_docker-Leads true dir ss =
        Leads-bind absent (run_all-Leads dir ss _) (λ t. Leads-return absent (exit_status t))

    after_filter-Leads :
        (dry : Bool) (dir : String) (ss : List Scenario)
        → Leads absent
            (after_filter py pretty str_int in_unit attribute has_docker fuel seen dry dir ss)
            absent
    unfolding after_filter
    after_filter-Leads true dir ss = Leads-return absent 0
    after_filter-Leads false dir [] = Leads-return absent 0
    after_filter-Leads false dir (s ∷ ss) = with_docker-Leads has_docker dir (s ∷ ss)

    after_expansion-Leads :
        (stamped : String) (args : Args) (scenarios : List Scenario)
        → Leads absent
            (after_expansion py pretty str_int in_unit attribute has_docker fuel seen stamped args
              scenarios)
            absent
    unfolding after_expansion
    after_expansion-Leads stamped args scenarios =
        elim (Option-cases (validate in_unit scenarios)) [
          | inr (p, e) ↦ rw (after_expansion, e) (Leads-return absent 1)
          | inl e ↦
              rw (after_expansion, e)
                (Leads-bind absent (Leads-lift absent _)
                  (λ chosen. after_filter-Leads args.dry_run _ chosen))
        ]

    -- When there are no containers at the start, the effects of the whole program are a run of the
    -- containers' state machine, for any options and any
    -- scenario file: over all the runs, containers are
    -- started only when there are none, and removed with the profiles that they were started with. A
    -- program that comes to its end leaves no container. One that raises an exception, or that a loop
    -- leaves without fuel, is such a run up to that point.
    pub main-Leads :
        (timestamp : String) (args : Args) (yaml_data : Dict Json)
        → Leads absent
            (main py pretty str_int in_unit attribute has_docker fuel seen timestamp args yaml_data)
            absent
    unfolding main
    main-Leads timestamp args yaml_data = of_expansion (expand_scenarios py yaml_data) refl
      where
        of_expansion :
            (e : Expansion)
            → expand_scenarios py yaml_data ≡ e
            → Leads absent
                (main py pretty str_int in_unit attribute has_docker fuel seen timestamp args
                  yaml_data)
                absent
        of_expansion both_keys q = rw (main, q) (Leads-return absent 1)
        of_expansion neither_key q = rw (main, q) (Leads-return absent 1)
        of_expansion raised q = rw (main, q) (Leads-throw absent absent)
        of_expansion (expanded name scenarios) q =
            rw (main, q) (after_expansion-Leads _ args scenarios)
