-- ===== src/Figures/Timeline.antt =====
-- The timeline of the figure on dynamic toggles of results/generate_figures.py: its events, and the
-- pairs between which its arrows are drawn. A toggle is given by its action and the seconds until it
-- was detected.
pub mod Laws
use autonat_project.Base.{
  ℕ, ◌+◌, ◌-◌, String, ◌<>◌, ◌==◌, Option, none, some, List, [], ◌∷◌, if◌then◌else◌, ◌>>=◌,
}
use autonat_project.Base.Show.{show_ℕ}
use autonat_project.Base.Int.{pos}
use autonat_project.Base.Split.{join}
use autonat_project.Json.{Json, int, str, dict, field?, iterate, Python}
use autonat_project.Trace.Attrs.{traverse}

pub record Toggled : Type 0 where
  pub action : String
  pub time_to_detect_s : ℕ

pub data Side : Type 0 where
  above : Side
  below : Side

-- An entry of `events`. A toggle has no state.
pub record Mark : Type 0 where
  pub t : ℕ
  pub label : String
  pub color : String
  pub state : Option String
  pub side : Side

abbrev pub new_state : String → String
new_state action = if action == "add_port_forward" then "reachable" else "unreachable"

abbrev pub action_label : String → String
action_label action =
    if action == "add_port_forward" then "Add Port Forward" else "Remove Port Forward"

abbrev pub start_mark : Mark
start_mark = record {
  t = 0;
  label = "Start\n(port-restricted NAT)";
  color = "#F44336";
  state = some "unreachable";
  side = above;
}

abbrev pub toggle_mark : ℕ → Toggled → Mark
toggle_mark t tg = record {
  t = t;
  label = "Toggle:\n" <> action_label tg.action;
  color = "#FFC107";
  state = none;
  side = below;
}

abbrev pub detected_mark : ℕ → Toggled → Mark
detected_mark t tg = record {
  t = t;
  label = "Detected:\n" <> new_state tg.action <> "\n(" <> show_ℕ tg.time_to_detect_s <> "s)";
  color = if new_state tg.action == "reachable" then "#4CAF50" else "#F44336";
  state = some (new_state tg.action);
  side = above;
}

-- The loop over the toggles, from a time on.
unfoldable pub marks_from : ℕ → List Toggled → List Mark
marks_from t [] = []
marks_from t (tg ∷ toggles) =
    toggle_mark (t + 30) tg
    ∷ detected_mark (t + 30 + tg.time_to_detect_s) tg
    ∷ marks_from (t + 30 + tg.time_to_detect_s) toggles

unfoldable pub marks : List Toggled → List Mark
unfolding marks_from
marks toggles = start_mark ∷ marks_from 0 toggles

-- The pairs of neighbours of which the first has no state and the second has one.
abbrev pair_of : Option String → Option String → ℕ → ℕ → List (ℕ × ℕ × ℕ) → List (ℕ × ℕ × ℕ)
pair_of none (some state) t0 t1 rest = (t0, t1, t1 - t0) ∷ rest
pair_of _ _ t0 t1 rest = rest

unfoldable pub toggle_detect_pairs : List Mark → List (ℕ × ℕ × ℕ)
toggle_detect_pairs [] = []
toggle_detect_pairs (a ∷ []) = []
toggle_detect_pairs (a ∷ b ∷ events) =
    pair_of a.state b.state a.t b.t (toggle_detect_pairs (b ∷ events))

-- A text and a number of seconds; a value of another kind counts as an exception.
action_text : Json → Option String
action_text (str s) = some s
action_text _ = none

seconds : Json → Option ℕ
seconds (int (pos n)) = some n
seconds _ = none

-- `tg["action"]` and `tg["time_to_detect_s"]`
unfoldable pub toggled_of : Json → Option Toggled
unfolding action_text seconds
toggled_of (dict fs) = do
  action ← field? "action" fs
  a ← action_text action
  time ← field? "time_to_detect_s" fs
  n ← seconds time
  some (record { action = a; time_to_detect_s = n })
toggled_of _ = none

-- `json.load` of a file with these lines, and the loop over what it holds.
unfoldable pub read_toggles : Python → List String → Option (List Toggled)
unfolding toggled_of
read_toggles py lines = do
  v ← py.loads (join "" lines)
  listed ← iterate v
  traverse toggled_of listed
