-- ===== src/Tests/Fixtures.antt =====
-- A small trace file and a JSON reader that knows its lines.
use autonat_project.Base.{ℕ, String, false, none, some, List, [], ◌∷◌, ◌==◌, if◌then◌else◌}
use autonat_project.Base.Int.{pos}
use autonat_project.Json.{
  Json, null, int, str, list, dict, Items, nil, cons, end, field, is_text, Python,
}
use autonat_project.Metrics.Stats.Exact.{mean_exact, median_exact}
use autonat_project.Trace.Attrs.{Event}
use autonat_project.Trace.Parse.{Activity, Trace}

abbrev attribute : String → Json → Json → Json
attribute k type v =
    dict (field "Key" (str k) (field "Value" (dict (field "Type" type (field "Value" v end))) end))

abbrev pub probe_span : Json
probe_span = dict (
    field "Name" (str "autonatv2.probe") (
      field "Attributes"
        (list (cons (attribute "autonat.reachability" (str "STRING") (str "public")) nil))
        (field "Events" null end)))

abbrev pub reachable_span : Json
reachable_span = dict (
    field "Name" (str "reachable_addrs_changed") (
      field "StartTime" (str "t1") (
        field "Attributes"
          (list (
            cons
              (attribute "reachable" (str "STRINGSLICE") (list (cons (str "/ip4/73.0.0.10") nil)))
              (cons (attribute "elapsed_ms" (str "INT64") (int (pos 6012))) nil)))
          end)))

abbrev pub python : Python
python = record {
  loads = λ s. if s == "P" then some probe_span else if s == "R" then some reachable_span else none;
  int_of_float = λ f. none;
  to_str = λ v. elim v [ str s ↦ s | _ ↦ "" ];
  dumps = λ v. "";
  equal = λ v w. elim w [ str s ↦ is_text s v | _ ↦ false ];
  round_mean = mean_exact;
  round_median = median_exact;
  mean_1 = λ vs. elim (mean_exact vs) [ some m ↦ some (int m) | none ↦ none ];
  median = λ vs. elim (median_exact vs) [ some m ↦ some (int m) | none ↦ none ];
}

-- A probe, a blank line, a line that is no JSON, and an event.
abbrev pub lines : List String
lines = "P" ∷ "  " ∷ "?" ∷ "R\n" ∷ []

abbrev pub event_at : ℕ → List String → Event
event_at t addrs = record {
  name = str "reachable_addrs_changed";
  time = str "";
  attrs = ("elapsed_ms", int (pos t)) ∷ ("reachable", list (texts addrs)) ∷ [];
}
  where
    texts : List String → Items
    texts [] = nil
    texts (a ∷ as') = cons (str a) (texts as')

abbrev pub probe : String → Activity
probe reachability = record { attrs = ("autonat.reachability", str reachability) ∷ []; events = [] }

abbrev pub trace_with : List Activity → List Event → Trace
trace_with probes events = record {
  session = some (record { attrs = []; events = events });
  refresh_cycles = [];
  probes = probes;
  server_selections = [];
}

-- A probe succeeded and nothing was reported.
abbrev pub silent : Trace
silent = trace_with (probe "public" ∷ []) (event_at 6000 [] ∷ [])

-- The address was reported as reachable, and later no more.
abbrev pub flapping : Trace
flapping = trace_with (probe "public" ∷ []) (event_at 6000 ("a" ∷ []) ∷ event_at 9000 [] ∷ [])

-- Reported as reachable with no public probe.
abbrev pub false_alarm : Trace
false_alarm = trace_with (probe "private" ∷ []) (event_at 7000 ("a" ∷ []) ∷ [])

abbrev pub runs : List (String × Trace)
runs = ("a.json", silent) ∷ ("b.json", flapping) ∷ ("c.json", false_alarm) ∷ []
