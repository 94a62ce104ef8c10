-- ===== src/Runner/Reading.antt =====
-- `load_yaml` and `_parse_list_attr` of testbed/run.py, and what `Compose.logs` reads.
use autonat_project.Base.{String, Option, none, some, List, [], ◌∷◌, starts_with, if◌then◌else◌}
use autonat_project.Json.{Json, str, list, elements, parsed_list, Python}
use autonat_project.Runner.Compose.{compose_run}

-- The file's value, the exit with status 1 where there is no reader, or an exception.
pub data Loaded : Type 0 where
  value : Json → Loaded
  exit_1 : Loaded
  raised : Loaded

abbrev loaded : Option Json → Loaded
loaded none = raised
loaded (some v) = value v

-- `safe_load` is there if the module yaml can be imported, and `yq` if that program is found. It is
-- what the program prints, unless it fails.
unfoldable pub load_yaml :
    Python → Option (String → Option Json) → Option (String → Option String) → String → Loaded
load_yaml py (some safe_load) yq path = loaded (safe_load path)
load_yaml py none none path = exit_1
load_yaml py none (some yq) path = elim (yq path) [
  | none ↦ raised
  | some out ↦ loaded (py.loads out)
]

-- `_parse_list_attr`, which nothing calls.
unfoldable pub parse_list_attr : Python → Json → List Json
parse_list_attr py (list vs) = elements vs
parse_list_attr py (str s) = if starts_with s "[" then parsed_list (py.loads s) else []
parse_list_attr py _ = []

abbrev pub compose_logs : String → List String
compose_logs container = compose_run ("logs" ∷ container ∷ []) []
