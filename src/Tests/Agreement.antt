-- ===== src/Tests/Agreement.antt =====
-- The small trace file in `analyze.py` and in `eval-assertions.py`.
use autonat_project.Trace.Attrs.{span_of}
use autonat_project.Base.{keep, last?}
use autonat_project.Base.{
  String, true, false, not, Option, none, map, ◌==◌, if◌then◌else◌, ◌≡◌, refl, some, List, [], ◌∷◌,
  any, inl, inr, arith, ◌>>=◌,
}
use autonat_project.Base.Dict.{lookup, insert}
use autonat_project.Base.Text.{strip, replace}
use autonat_project.Base.Int.{pos}
use autonat_project.Json.{
  Json, items, iterate, coerce_int, Python, float, int, str, list, nil, cons, is_text, field?,
  truthy,
}
use autonat_project.Trace.Attrs.{Span}
use autonat_project.Trace.Parse.{
  Trace, parse_trace, decode_line, absorb, is_testbed_name, in_testbed,
}
use autonat_project.Trace.Views.{with_name, is_hashable, spans_of, trace_of}
use autonat_project.Metrics.Events.{any_public, any_reachable, lists_some, session_events}
use autonat_project.Metrics.Rates.{is_fn, is_fp}
use autonat_project.Figures.{AddrCounts, parse_list, parse_spans, get_convergence, figure_span}
use autonat_project.Figures.Rates.{read_file, v2_detected}
use autonat_project.Agreement.Detection.{v2_detected-is_fn}
use autonat_project.Assertions.Load.{Flat, load_events}
use autonat_project.Assertions.Evaluate.{passes, evaluate}
use autonat_project.Agreement.Filters.{not_empty}
use autonat_project.Agreement.Laws.{has_event-session_events}
use autonat_project.Runner.Toggles.{Outcome}
use autonat_project.Runner.Effects.{World, done}
use autonat_project.Runner.Run.{outcome_json, save_toggles}
use autonat_project.Figures.Timeline.{Toggled, read_toggles, marks, toggle_detect_pairs}
use autonat_project.Figures.Timeline.Laws.{due_from}
use autonat_project.Agreement.Toggles.{of_outcome, read_toggles-save_toggles}
use autonat_project.Tests.Fixtures.{python, lines}
use autonat_project.Tests.Scenarios.{str_int}
use autonat_project.Tests.Runs.{seen_with}

abbrev probe : Span
probe = record {
  name = str "autonatv2.probe";
  attrs = ("autonat.reachability", str "public") ∷ [];
  events = [];
  start_time = str "";
}

abbrev report : Span
report = record {
  name = str "reachable_addrs_changed";
  attrs =
      ("reachable", list (cons (str "/ip4/73.0.0.10") nil)) ∷ ("elapsed_ms", int (pos 6012)) ∷ [];
  events = [];
  start_time = str "t1";
}

lines_read : spans_of python lines ≡ some (probe ∷ report ∷ [])
unfolding spans_of decode_line strip span_of field? truthy insert with_name is_hashable
lines_read = refl

has_event-session_events_example :
    (t : Trace) × (events : List Flat) × (parse_trace python lines ≡ some t)
    × (load_events python lines ≡ some events)
    × ((do
      v ← evaluate python (not_empty "reachable_addrs_changed" "reachable") events
      some (passes v))
        ≡ some (any (lists_some python "reachable") (session_events t "reachable_addrs_changed")))
unfolding keep is_text any
has_event-session_events_example =
    has_event-session_events python "reachable_addrs_changed" "reachable" lines
      (probe ∷ report ∷ []) (inr (inr (inr (inl refl)))) (refl, refl, refl, refl) lines_read
      (omega arith) (inr refl, (inr refl, tt))

-- A toggle that was detected, and one whose timeout ran out.
abbrev first : Outcome
first = record { phase = 1; action = "add_port_forward"; detected = true; time_to_detect_s = 12 }

abbrev second : Outcome
second = record {
  phase = 2;
  action = "remove_port_forward";
  detected = false;
  time_to_detect_s = 120;
}

abbrev toggles_json : Json
toggles_json = list (items (map (outcome_json (λ k. "")) (first ∷ second ∷ [])))

-- A reader and a printer that know the toggle results.
abbrev reader : Python
reader = record python { loads = λ s. if s == "J" then some toggles_json else none }

abbrev empty_world : World
empty_world = record { files = []; log = [] }

read_toggles-save_toggles_example :
    (saved : World) × (lines : List String) × (toggles : List Toggled) × (save_toggles reader
        (λ v. "J")
        str_int
        "a.json"
        (seen_with [])
        (first ∷ second ∷ [])
        empty_world
      ≡ (done tt, saved))
    × (lookup (replace ".json" ".toggles.json" "a.json") saved.files ≡ some lines)
    × (read_toggles reader lines ≡ some toggles)
    × (toggles ≡ map of_outcome (first ∷ second ∷ []))
    × (toggle_detect_pairs (marks toggles) ≡ due_from 0 (map of_outcome (first ∷ second ∷ [])))
read_toggles-save_toggles_example =
    read_toggles-save_toggles reader (λ v. "J") str_int "a.json" (seen_with []) first (second ∷ [])
      empty_world refl

-- A reader that knows the text "[]" too, and a `float` that takes integers.
abbrev lists : Python
lists = record python { loads = λ s. if s == "[]" then some (list nil) else python.loads s }

to_float : Json → Option Json
to_float (int n) = some (float "1.0")
to_float v = none

to_float-no_list : (v w : Json) → to_float v ≡ some w → parse_list lists to_float w ≡ []
unfolding to_float parse_list
to_float-no_list (int n) w h = let e : w ≡ float "1.0" = cc h in rw e refl
to_float-no_list v w h = absurd (cc h)

abbrev counted : AddrCounts
counted = record { elapsed = int (pos 6012); reachable = 1; unreachable = 0 }

abbrev both : List String
both = "P" ∷ "  " ∷ "R\n" ∷ []

shown_read : read_file lists to_float both ≡ some ([], counted ∷ [])
unfolding parse_spans get_convergence strip figure_span to_float iterate truthy field? is_text
    coerce_int lookup insert
shown_read = refl

trace_read : parse_trace lists both ≡ some (trace_of (probe ∷ report ∷ []))
unfolding parse_trace decode_line strip span_of field? truthy absorb is_text is_testbed_name
    in_testbed any keep last? insert
trace_read = refl

shown_detected : v2_detected (counted ∷ []) ≡ some true
unfolding v2_detected
shown_detected = refl

v2_detected-is_fn_example :
    (any_reachable lists (trace_of (probe ∷ report ∷ [])) ≡ true)
    × (is_fn lists (trace_of (probe ∷ report ∷ [])) ≡ false)
    × (is_fp lists (trace_of (probe ∷ report ∷ []))
        ≡ not (any_public (trace_of (probe ∷ report ∷ []))))
v2_detected-is_fn_example =
    v2_detected-is_fn lists to_float both [] (counted ∷ []) (trace_of (probe ∷ report ∷ []))
      to_float-no_list refl shown_read trace_read shown_detected
