-- ===== src/Trace/Parse.antt =====
-- `parse_trace`: the loop over the lines, and the merge of the spans that stand for one event each.
use autonat_project.Base.{
  String, Bool, Option, none, some, List, [], ◌∷◌, ◌++◌, any, if◌then◌else◌, ◌>>=◌,
}
use autonat_project.Base.Text.{strip, is_empty}
use autonat_project.Json.{Json, list, dict, Python, is_text}
use autonat_project.Trace.Attrs.{Attrs, Event, Span, span_of}

-- An entry with attributes and events: the session, a refresh cycle or a probe.
pub record Activity : Type 0 where
  pub attrs : Attrs
  pub events : List Event

-- `result`
pub record Trace : Type 0 where
  pub session : Option Activity
  pub refresh_cycles : List Activity
  pub probes : List Activity
  pub server_selections : List Attrs

-- `TESTBED_SPAN_NAMES`
abbrev pub testbed_span_names : List String
testbed_span_names =
    "started" ∷ "shutdown" ∷ "reachability_changed" ∷ "reachable_addrs_changed"
    ∷ "nat_device_type_changed" ∷ "addresses_updated" ∷ "local_protocols_updated"
    ∷ "auto_relay_addrs_updated" ∷ "connected" ∷ "connect_failed" ∷ "bootstrap_start"
    ∷ "bootstrap_done" ∷ "bootstrap_error" ∷ "bootstrap_connected" ∷ "peer_discovery_start"
    ∷ "peer_discovery_done" ∷ "peer_discovery_timeout" ∷ []

unfoldable pub is_testbed_name : Json → Bool
is_testbed_name name = any (λ n. is_text n name) testbed_span_names

-- `name in TESTBED_SPAN_NAMES`: a look-up in a set. `none` is the TypeError for a name that cannot
-- be hashed, a list or a dict.
unfoldable pub in_testbed : Json → Option Bool
unfolding is_testbed_name
in_testbed (list vs) = none
in_testbed (dict fs) = none
in_testbed name = some (is_testbed_name name)

-- The variables of the loop: `result` and `extra_events`.
pub record Loading : Type 0 where
  pub result : Trace
  pub extra_events : List Event

abbrev pub start : Loading
start = record {
  result = record { session = none; refresh_cycles = []; probes = []; server_selections = [] };
  extra_events = [];
}

abbrev pub activity : Span → Activity
activity s = record { attrs = s.attrs; events = s.events }

abbrev pub as_event : Span → Event
as_event s = record { name = s.name; time = s.start_time; attrs = s.attrs }

-- The branches of the loop's body on the span's name; `none` is the exception of the last test.
unfoldable pub absorb : Loading → Span → Option Loading
absorb st s =
    let r = st.result in
    if is_text "autonat.session" s.name
    then some (record st { result = record r { session = some (activity s) } })
    else if is_text "autonatv2.refresh_cycle" s.name
    then some
        (record st { result = record r { refresh_cycles = r.refresh_cycles ++ activity s ∷ [] } })
    else if is_text "autonatv2.probe" s.name
    then some (record st { result = record r { probes = r.probes ++ activity s ∷ [] } })
    else if is_text "autonatv2.server_selection" s.name
    then some (record st {
      result = record r { server_selections = r.server_selections ++ s.attrs ∷ [] };
    })
    else (do
      is_one ← in_testbed s.name
      some (if is_one then record st { extra_events = st.extra_events ++ as_event s ∷ [] } else st))

-- The session that the extra events are merged into.
abbrev pub session_or_new : Option Activity → Activity
session_or_new none = record { attrs = []; events = [] }
session_or_new (some a) = a

merged : Trace → List Event → Trace
merged r [] = r
merged r (e ∷ es) =
    let a = session_or_new r.session in
    record r { session = some (record a { events = a.events ++ e ∷ es }) }

-- The code after the loop.
unfoldable pub merge : Loading → Trace
unfolding merged
merge st = merged st.result st.extra_events

module _ (py : Python) where
  -- What a line gives: `none` is an exception, `some none` a `continue`.
  unfoldable pub decode_line : String → Option (Option Span)
  decode_line line =
      let text = strip line in
      if is_empty text
      then some none
      else elim (py.loads text) [ none ↦ some none | some v ↦ (do s ← span_of v; some (some s)) ]

  unfoldable pub read_lines : List String → Loading → Option Loading
  read_lines [] st = some st
  read_lines (line ∷ rest) st = elim (decode_line line) [
    | none ↦ none
    | some none ↦ read_lines rest st
    | some (some s) ↦ (do next ← absorb st s; read_lines rest next)
  ]

  -- `parse_trace` of a file with these lines
  unfoldable pub parse_trace : List String → Option Trace
  unfolding read_lines decode_line merge
  parse_trace lines = do st ← read_lines lines start; some (merge st)
