-- ===== src/Scenario/Schema/Document.antt =====
-- `expand_scenarios` of testbed/run.py.
use autonat_project.Base.{String, Option, none, some, List, [], ◌∷◌, ◌>>=◌}
use autonat_project.Base.Dict.{Dict, lookup}
use autonat_project.Json.{Json, dict, Fields, Python, default, iterate}
use autonat_project.Trace.Attrs.{traverse}
use autonat_project.Assertions.Program.{dict_of}
use autonat_project.Scenario.Defs.{Scenario}
use autonat_project.Scenario.Expand.{expand_matrix}
use autonat_project.Scenario.Schema.{or_value, text_of, parse_scenario}

-- The rows of a matrix: each value is iterated over.
value_lists : Fields → Option (Dict (List Json))
value_lists Fields.end = some []
value_lists (Fields.field k v fs) = do vs ← iterate v; rest ← value_lists fs; some ((k, vs) ∷ rest)

unfoldable pub matrix_of : Json → Option (Dict (List Json))
unfolding value_lists
matrix_of (dict fs) = value_lists fs
matrix_of _ = none

row_of : Json → Option (Dict Json)
row_of (dict fs) = some (dict_of fs)
row_of _ = none

unfoldable pub raw_scenarios : Json → Option (List (Dict Json))
unfolding row_of
raw_scenarios v = do vs ← iterate v; traverse row_of vs

-- What `expand_scenarios` ends with: an exit for the two errors, an exception, or its result.
pub data Expansion : Type 0 where
  both_keys : Expansion
  neither_key : Expansion
  raised : Expansion
  expanded : String → List Scenario → Expansion

abbrev or_raised : Option (String × List Scenario) → Expansion
or_raised none = raised
or_raised (some (name, scenarios)) = expanded name scenarios

module _ (py : Python) where
  -- The result from the list of raw scenarios.
  unfoldable pub parsed : Dict Json → List (Dict Json) → Option (String × List Scenario)
  parsed yaml_data raw_list = do
    name ← or_value "unnamed" text_of (lookup "name" yaml_data)
    scenarios ←
        traverse (parse_scenario py (default (dict Fields.end) (lookup "defaults" yaml_data)))
          raw_list
    some (name, scenarios)

  expand_from : Dict Json → Option Json → Option Json → Expansion
  expand_from yaml_data (some matrix) (some scenarios) = both_keys
  expand_from yaml_data none none = neither_key
  expand_from yaml_data (some matrix) none =
      or_raised (do m ← matrix_of matrix; parsed yaml_data (expand_matrix m))
  expand_from yaml_data none (some scenarios) =
      or_raised (do raw_list ← raw_scenarios scenarios; parsed yaml_data raw_list)

  unfoldable pub expand_scenarios : Dict Json → Expansion
  unfolding expand_from parsed
  expand_scenarios yaml_data =
      expand_from yaml_data (lookup "matrix" yaml_data) (lookup "scenarios" yaml_data)
