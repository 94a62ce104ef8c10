-- ===== src/Scenario/Expand.antt =====
-- `expand_matrix` of testbed/run.py.
pub mod Laws
use mathlib.Core.List.{zip}
use autonat_project.Base.{String, List, [], ◌∷◌, map, ◌++◌}
use autonat_project.Base.Dict.{Dict}
use autonat_project.Json.{Json}

with_each : List Json → List (List Json) → List (List Json)
with_each [] combos = []
with_each (v ∷ vs) combos = map (λ c. v ∷ c) combos ++ with_each vs combos

-- `itertools.product(*values)`: the last list varies fastest.
unfoldable pub product : List (List Json) → List (List Json)
unfolding with_each
product [] = [] ∷ []
product (vs ∷ rest) = with_each vs (product rest)

-- `list(matrix.keys())`
abbrev pub keys_of : Dict (List Json) → List String
keys_of [] = []
keys_of ((k, vs) ∷ matrix) = k ∷ keys_of matrix

-- `[matrix[k] for k in keys]`
abbrev pub values_of : Dict (List Json) → List (List Json)
values_of [] = []
values_of ((k, vs) ∷ matrix) = vs ∷ values_of matrix

unfoldable pub expand_matrix : Dict (List Json) → List (Dict Json)
unfolding product
expand_matrix matrix = map (λ combo. zip (keys_of matrix) combo) (product (values_of matrix))
