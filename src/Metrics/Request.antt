-- ===== src/Metrics/Request.antt =====
-- The choice of metrics and the loading of files in `main` of testbed/analyze.py.
use autonat_project.Base.{
  String, ◌≡◌, Bool, true, false, Option, none, some, List, [], ◌∷◌, ◌++◌, ◌==◌, if◌then◌else◌, inl,
  inr, Bool-cases,
}
use autonat_project.Json.{Python}
use autonat_project.Trace.Parse.{parse_trace}
use autonat_project.Metrics.Events.{Traces}

-- The keys of `METRIC_FUNCS`.
abbrev pub metric_names : List String
metric_names =
    "fnr" ∷ "false_negative_rate" ∷ "fpr" ∷ "false_positive_rate" ∷ "time_to_confidence"
    ∷ "time_to_update" ∷ "protocol_overhead" ∷ []

abbrev pub all_metrics : List String
all_metrics = "fnr" ∷ "fpr" ∷ "time_to_confidence" ∷ "time_to_update" ∷ "protocol_overhead" ∷ []

-- `x in names`
unfoldable pub is_in : String → List String → Bool
is_in x [] = false
is_in x (n ∷ ns) = if n == x then true else is_in x ns

-- The loop over the names of one "--metric"; `none` is the exit on an unknown metric.
unfoldable pub requested : List String → List String → Option (List String)
unfolding is_in
requested [] chosen = some chosen
requested (n ∷ names) chosen =
    let rest = requested names (chosen ++ n ∷ []) in
    if n == "all" then some all_metrics else if is_in n metric_names then rest else none

-- The loop that leaves out what it has seen.
unfoldable pub unique_from : List String → List String → List String
unfolding is_in
unique_from seen [] = []
unique_from seen (m ∷ ms) =
    let known = unique_from seen ms in
    let fresh = unique_from (m ∷ seen) ms in if is_in m seen then known else m ∷ fresh

unfoldable pub unique_metrics : List String → List String
unfolding unique_from
unique_metrics ms = unique_from [] ms

-- The loop over the files: a file that cannot be parsed is left out with a warning. `lines_of` is
-- what a file holds.
unfoldable pub load_traces : Python → (String → List String) → List String → Traces
load_traces py lines_of [] = []
load_traces py lines_of (path ∷ files) =
    let rest = load_traces py lines_of files in
    elim (parse_trace py (lines_of path)) [ none ↦ rest | some t ↦ (path, t) ∷ rest ]

-- No name stands in the list twice, and none of them was seen.
abbrev pub IsUnique : List String → List String → Type 0
IsUnique seen [] = Unit
IsUnique seen (m ∷ ms) = (is_in m seen ≡ false) × IsUnique (m ∷ seen) ms

unique_from-IsUnique : (seen ms : List String) → IsUnique seen (unique_from seen ms)
unfolding unique_from
unique_from-IsUnique seen [] = tt
unique_from-IsUnique seen (m ∷ ms) = elim (Bool-cases (is_in m seen)) [
  | inl e ↦ rw e (unique_from-IsUnique seen ms)
  | inr e ↦ rw e (e, unique_from-IsUnique (m ∷ seen) ms)
]

-- No metric is computed twice, whatever names are requested.
pub unique_metrics-IsUnique : (ms : List String) → IsUnique [] (unique_metrics ms)
unfolding unique_metrics
unique_metrics-IsUnique ms = unique_from-IsUnique [] ms
