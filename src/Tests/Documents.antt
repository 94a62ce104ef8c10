-- ===== src/Tests/Documents.antt =====
-- A scenario file with a matrix, and an entry over defaults.
use mathlib.Core.List.{zip}
use autonat_project.Assertions.Program.{dict_of}
use autonat_project.Base.{String, ◌≡◌, refl, ◌⊎◌, none, some, List, [], ◌∷◌, length, map}
use autonat_project.Base.Int.{pos}
use autonat_project.Base.Dict.{Dict, lookup, insert, insert_all}
use autonat_project.Json.{
  Json, null, int, str, list, dict, nil, cons, end, field, iterate, coerce_int,
}
use autonat_project.Trace.Attrs.{traverse}
use autonat_project.Scenario.Defs.{Scenario}
use autonat_project.Scenario.Expand.{expand_matrix}
use autonat_project.Scenario.Expand.Laws.{sizes}
use autonat_project.Scenario.Schema.{parse_scenario}
use autonat_project.Scenario.Schema.Document.{
  matrix_of, Expansion, raised, expanded, expand_scenarios,
}
use autonat_project.Scenario.Schema.Laws.{expand_scenarios-length}
use autonat_project.Runner.Jaeger.Laws.{IsDict}
use autonat_project.Tests.Fixtures.{python}

abbrev matrix : Json
matrix = dict (
    field "nat_type" (list (cons (str "none") (cons (str "symmetric") nil)))
      (field "transport" (list (cons (str "tcp") nil)) end))

abbrev document : Dict Json
document =
    ("name", str "two")
    ∷ ("defaults", dict (field "runs" (int (pos 2)) end))
    ∷ ("matrix", matrix)
    ∷ []

abbrev lists : Dict (List Json)
lists = ("nat_type", str "none" ∷ str "symmetric" ∷ []) ∷ ("transport", str "tcp" ∷ []) ∷ []

matrix_run : matrix_of matrix ≡ some lists
unfolding matrix_of iterate
matrix_run = refl

has_matrix : lookup "matrix" document ≡ some matrix
unfolding lookup
has_matrix = refl

no_scenarios : lookup "scenarios" document ≡ none
unfolding lookup
no_scenarios = refl

expand_scenarios-length_example :
    (expand_scenarios python document ≡ raised)
    ⊎ ((name : String) × (scenarios : List Scenario) × (expand_scenarios python document
          ≡ expanded name scenarios)
        × (length scenarios ≡ sizes lists))
expand_scenarios-length_example =
    expand_scenarios-length python document matrix lists has_matrix no_scenarios matrix_run

names_of : Expansion → List String
names_of (expanded name scenarios) = map (λ (s : Scenario). s.nat_type) scenarios
names_of _ = []

-- The file expands into its two scenarios.
document_run : names_of (expand_scenarios python document) ≡ "none" ∷ "symmetric" ∷ []
unfolding names_of expand_scenarios matrix_of expand_matrix parse_scenario traverse iterate lookup
    insert_all insert zip dict_of coerce_int
document_run = refl

abbrev raw : Dict Json
raw = ("runs", null) ∷ ("nat_type", str "none") ∷ []

raw-IsDict : IsDict raw
unfolding lookup
raw-IsDict = (refl, (refl, tt))
