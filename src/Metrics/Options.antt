-- ===== src/Metrics/Options.antt =====
-- The options of `main` of testbed/analyze.py, up to the computation of the metrics. `none` is an
-- exit with status 1.
pub mod Laws
use autonat_project.Base.{
  String, ◌==◌, Bool, true, false, ◌||◌, Option, none, some, List, [], ◌∷◌, ◌++◌, map, starts_with,
  if◌then◌else◌, ◌>>=◌,
}
use autonat_project.Base.Text.{strip}
use autonat_project.Base.Split.{split}
use autonat_project.Json.{Python}
use autonat_project.Metrics.Events.{Traces}
use autonat_project.Metrics.Request.{all_metrics, requested, unique_metrics, load_traces}

pub record Options : Type 0 where
  pub requested_metrics : List String
  pub output_format : String
  pub files : List String

abbrev pub no_options : Options
no_options = record { requested_metrics = all_metrics; output_format = "text"; files = [] }

-- `--metric` with its argument.
unfoldable pub with_metric : String → Options → Option Options
with_metric arg o = do
  ms ← requested (map strip (split b',' arg)) []
  some (record o { requested_metrics = ms })

-- `--output` with its argument.
unfoldable pub with_output : String → Options → Option Options
with_output arg o =
    if arg == "text" || arg == "json" then some (record o { output_format = arg }) else none

-- An argument that stands by itself.
unfoldable pub with_file : String → Options → Option Options
with_file arg o =
    if starts_with arg "--" then none else some (record o { files = o.files ++ arg ∷ [] })

-- The loop over the arguments.
unfoldable pub parse_options : List String → Options → Option Options
unfolding with_metric with_output with_file
parse_options [] o = some o
parse_options (arg ∷ []) o = with_file arg o
parse_options (arg ∷ next ∷ args) o = elim (arg == "--metric") [
  | true ↦ (do p ← with_metric next o; parse_options args p)
  | false ↦ elim (arg == "--output") [
    | true ↦ (do p ← with_output next o; parse_options args p)
    | false ↦ (do p ← with_file arg o; parse_options (next ∷ args) p)
  ]
]

-- What the metrics are computed on: their names, the traces, and the output's format.
pub record Request : Type 0 where
  pub unique : List String
  pub traces : Traces
  pub format : String

abbrev if_any {ℓ} : {A : Type ℓ} → List A → Option (List A)
if_any [] = none
if_any (x ∷ xs) = some (x ∷ xs)

unfoldable pub read_request : Python → (String → List String) → List String → Option Request
unfolding parse_options
read_request py lines_of args = do
  o ← parse_options args no_options
  files ← if_any o.files
  traces ← if_any (load_traces py lines_of files)
  some (record {
    unique = unique_metrics o.requested_metrics;
    traces = traces;
    format = o.output_format;
  })
