-- ===== src/Metrics/Events.antt =====
-- The helpers of the metrics: a session's events of one name, and their attributes.
use autonat_project.Base.{
  String, Bool, Option, none, some, List, [], keep, any, starts_with, if◌then◌else◌, length, ltb,
}
use autonat_project.Base.Int.{ℤ}
use autonat_project.Base.Dict.{lookup}
use autonat_project.Json.{
  Json, null, str, list, nil, elements, default, is_text, Python, coerce_int, parsed_list,
}
use autonat_project.Trace.Attrs.{Attrs, Event}
use autonat_project.Trace.Parse.{Activity, Trace}

-- The traces that were loaded, each with its path.
abbrev pub Traces : Type 0
Traces = List (String × Trace)

abbrev pub named_event : String → Event → Bool
named_event n e = is_text n e.name

-- `_session_events`
unfoldable pub session_events : Trace → String → List Event
session_events t n = elim t.session [ none ↦ [] | some a ↦ keep (named_event n) a.events ]

-- `p["attrs"].get("autonat.reachability") == "public"`
abbrev pub says_public : Attrs → Bool
says_public attrs = is_text "public" (default null (lookup "autonat.reachability" attrs))

-- The `any` over a trace's probes, which two metrics share.
unfoldable pub any_public : Trace → Bool
any_public t = any (λ (p : Activity). says_public p.attrs) t.probes

module _ (py : Python) where
  -- `_elapsed_ms`
  unfoldable pub elapsed_ms : Event → Option ℤ
  elapsed_ms e = coerce_int py (default null (lookup "elapsed_ms" e.attrs))

  -- A value that is a list, or a text that holds one.
  unfoldable pub list_value : Json → List Json
  list_value (list vs) = elements vs
  list_value (str s) = if starts_with s "[" then parsed_list (py.loads s) else []
  list_value _ = []

  -- `_list_attr`
  unfoldable pub list_attr : Event → String → List Json
  unfolding list_value
  list_attr e key = list_value (default (list nil) (lookup key e.attrs))

  -- `len(_list_attr(e, key)) > 0`
  unfoldable pub lists_some : String → Event → Bool
  unfolding list_attr
  lists_some key e = ltb 0 (length (list_attr e key))

  -- The `any` over a trace's events, which two metrics share.
  unfoldable pub any_reachable : Trace → Bool
  unfolding lists_some session_events
  any_reachable t = any (lists_some "reachable") (session_events t "reachable_addrs_changed")
