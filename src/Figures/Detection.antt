-- ===== src/Figures/Detection.antt =====
-- The matrix of the figure of detection correctness of results/generate_figures.py: one cell of it.
pub mod Laws
use autonat_project.Base.{
  String, ◌<>◌, ◌==◌, Bool, true, false, Option, none, some, List, [], ◌∷◌, if◌then◌else◌, ◌>>=◌,
}
use autonat_project.Base.Dict.{Dict, lookup}
use autonat_project.Json.{Json, Python, is_text}
use autonat_project.Trace.Attrs.{traverse}
use autonat_project.Scenario.Defs.{is_one_of}
use autonat_project.Figures.{Reachability, parse_spans, get_convergence}

-- A cell: the numbers 1.0, 0.0 and 0.5 with the kinds of their labels.
pub data Cell : Type 0 where
  no_data : Cell
  not_triggered : Cell
  correct : Bool → Cell
  false_positive : Cell
  false_negative : Cell

abbrev pub reachable_nats : List String
reachable_nats = "none" ∷ "full-cone" ∷ []

abbrev pub nat_order : List String
nat_order = "none" ∷ "full-cone" ∷ "address-restricted" ∷ "port-restricted" ∷ "symmetric" ∷ []

abbrev pub transports : List String
transports = "tcp" ∷ "quic" ∷ []

-- `v1_evts[0]["reachability"]`, if there is one.
abbrev pub detected_state : List Reachability → Option Json
detected_state [] = none
detected_state (e ∷ evts) = some e.reachability

unfoldable pub cell_of : Bool → Option Json → Cell
cell_of expected_reachable none = not_triggered
cell_of expected_reachable (some detected) =
    if is_text (if expected_reachable then "public" else "private") detected
    then correct expected_reachable
    else if expected_reachable
    then false_negative
    else false_positive

-- The names that are tried, for the server counts 7, 5 and 3 in turn.
abbrev pub file_names : String → String → List String
file_names nat t =
    (nat <> "-" <> t <> "-7-lat10.json")
    ∷ (nat <> "-" <> t <> "-5-lat10.json")
    ∷ (nat <> "-" <> t <> "-3-lat10.json")
    ∷ []

unfoldable pub first_file : List String → Dict (List String) → Option (List String)
first_file [] files = none
first_file (name ∷ names) files = elim (lookup name files) [
  | some lines ↦ some lines
  | none ↦ first_file names files
]

module _ (py : Python) (to_float : Json → Option Json) where
  -- The cell of a file's lines, if there is a file.
  unfoldable pub file_cell : Bool → Option (List String) → Option Cell
  unfolding cell_of
  file_cell expected_reachable none = some no_data
  file_cell expected_reachable (some lines) = do
    spans ← parse_spans py to_float lines
    let (v1_evts, v2_evts) = get_convergence py to_float spans
    some (cell_of expected_reachable (detected_state v1_evts))

  -- The cell of a NAT type and a transport, over the files of the result directory.
  unfoldable pub matrix_cell : Dict (List String) → String → String → Option Cell
  unfolding file_cell first_file
  matrix_cell files nat t =
      file_cell (is_one_of nat reachable_nats) (first_file (file_names nat t) files)

  -- The rows by NAT type, each by transport.
  unfoldable pub matrix : Dict (List String) → Option (List (List Cell))
  unfolding matrix_cell
  matrix files = traverse (λ nat. traverse (λ t. matrix_cell files nat t) transports) nat_order
