-- ===== src/Tests/Programs.antt =====
-- The program on two scenarios, one of which the filter leaves.
use autonat_project.Json.{Json, str, list, dict, nil, cons, end, field}
use autonat_project.Base.{
  String, ◌≡◌, true, false, none, some, List, [], ◌∷◌, ◌==◌, OneOf, ◌↔◌, ◌⊎◌, if◌then◌else◌,
}
use autonat_project.Base.Int.{pos}
use autonat_project.Base.Dict.{Dict}
use autonat_project.Scenario.Defs.{Scenario}
use autonat_project.Scenario.Filter.{apply_filter, parse_filters}
use autonat_project.Scenario.Filter.Laws.{Agrees, apply_filter_lem}
use autonat_project.Runner.Effects.Laws.{Leads, absent}
use autonat_project.Runner.Main.{Args, main}
use autonat_project.Runner.Main.Lifecycle.{main-Leads}
use autonat_project.Tests.Scenarios.{four_servers, str_int, in_unit}
use autonat_project.Tests.Runs.{json, pretty, seen_with}

-- Two runs of each scenario whose NAT type is "none".
abbrev args : Args
args = record {
  timeout = none;
  runs = some (pos 2);
  filter = "nat_type=none";
  output = "out";
  dry_run = false;
}

abbrev attribute : Scenario → String → String
attribute s k = if k == "nat_type" then s.nat_type else ""

abbrev symmetric : Scenario
symmetric = record four_servers { nat_type = "symmetric" }

abbrev two_runs : Scenario
two_runs = record four_servers { runs = pos 2 }

abbrev entries : Json
entries = list (
    cons (dict (field "server_count" (str "4") end))
      (cons (dict (field "server_count" (str "4") (field "nat_type" (str "symmetric") end))) nil))

abbrev document : Dict Json
document = ("scenarios", entries) ∷ []

main-Leads_example :
    Leads absent
      (main json pretty str_int in_unit attribute true 41 (λ k. seen_with []) "now" args document)
      absent
main-Leads_example =
    main-Leads json pretty str_int 41 (λ k. seen_with []) in_unit attribute true "now" args document

apply_filter_lem_example :
    ((args.filter ≡ "")
      × (apply_filter attribute (four_servers ∷ symmetric ∷ []) args.filter
          ≡ some (four_servers ∷ symmetric ∷ [])))
    ⊎ ((parse_filters args.filter ≡ none)
        × (apply_filter attribute (four_servers ∷ symmetric ∷ []) args.filter ≡ none))
    ⊎ ((filters : Dict String) × (result : List Scenario) × (parse_filters args.filter
          ≡ some filters)
        × (apply_filter attribute (four_servers ∷ symmetric ∷ []) args.filter ≡ some result)
        × ((s : Scenario)
            → OneOf s result
              ↔ (OneOf s (four_servers ∷ symmetric ∷ []) × Agrees attribute filters s)))
apply_filter_lem_example = apply_filter_lem attribute (four_servers ∷ symmetric ∷ []) args.filter
