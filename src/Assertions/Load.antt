-- ===== src/Assertions/Load.antt =====
-- `load_events` of testbed/eval-assertions.py. `none` is an exception that leaves the function.
use autonat_project.Base.{
  String, Bool, Option, none, some, List, [], ◌∷◌, ◌++◌, any, if◌then◌else◌, ◌>>=◌,
}
use autonat_project.Base.Dict.{lookup, insert}
use autonat_project.Base.Text.{strip, is_empty}
use autonat_project.Json.{
  Json, null, int, str, list, dict, nil, Fields, field?, default, is_text, Python, coerce_int,
}
use autonat_project.Trace.Attrs.{Attrs, flatten_attrs, rounds, traverse}

-- A flat event: the attributes with "type", "_span_name" and "_time".
abbrev pub Flat : Type 0
Flat = Attrs

-- The spans that are no events themselves.
abbrev pub library_span_names : List String
library_span_names =
    "autonat.session" ∷ "autonatv2.refresh_cycle" ∷ "autonatv2.probe" ∷ "autonatv2.server_selection"
    ∷ []

unfoldable pub in_library : Json → Bool
in_library name = any (λ n. is_text n name) library_span_names

-- The three keys that are written over the attributes.
unfoldable pub mark : Json → Json → Json → Attrs → Flat
mark type span_name time attrs =
    insert "_time" time (insert "_span_name" span_name (insert "type" type attrs))

module _ (py : Python) where
  -- `flat["elapsed_ms"] = int(flat["elapsed_ms"])`, where an exception is passed over
  unfoldable pub with_int_time : Flat → Flat
  with_int_time flat = elim (lookup "elapsed_ms" flat) [
    | none ↦ flat
    | some v ↦ elim (coerce_int py v) [ none ↦ flat | some n ↦ insert "elapsed_ms" (int n) flat ]
  ]

  -- One event of a span's "Events".
  unfoldable pub span_event : Json → Json → Option Flat
  unfolding with_int_time mark
  span_event span_name (dict e) = do
    attrs ← flatten_attrs (default (list nil) (field? "Attributes" e))
    some (
        with_int_time (
          mark (default (str "") (field? "Name" e)) span_name (default (str "") (field? "Time" e))
            attrs))
  span_event span_name _ = none

  -- The event that a span with attributes is itself.
  unfoldable pub own_event : Json → Json → Attrs → List Flat
  own_event span_name start_time [] = []
  own_event span_name start_time (kv ∷ attrs) =
      with_int_time (mark span_name span_name start_time (kv ∷ attrs)) ∷ []

  unfoldable pub with_own : Json → Fields → List Flat → Option (List Flat)
  with_own span_name s events =
      if in_library span_name
      then some events
      else (flatten_attrs (default (list nil) (field? "Attributes" s)) >>= λ attrs.
          some (events ++ own_event span_name (default (str "") (field? "StartTime" s)) attrs))

  -- What the loop's body appends for one span.
  unfoldable pub span_events : Json → Option (List Flat)
  unfolding span_event with_own own_event in_library
  span_events (dict s) = do
    let span_name = default (str "") (field? "Name" s)
    raw ← rounds (default null (field? "Events" s))
    events ← traverse (span_event span_name) raw
    with_own span_name s events
  span_events _ = none

  -- What the loop's body appends for one line.
  unfoldable pub line_events : String → Option (List Flat)
  unfolding span_events
  line_events line =
      let text = strip line in
      if is_empty text
      then some []
      else elim (py.loads text) [ none ↦ some [] | some v ↦ span_events v ]

  unfoldable pub load_loop : List String → List Flat → Option (List Flat)
  unfolding line_events
  load_loop [] events = some events
  load_loop (line ∷ rest) events = do new ← line_events line; load_loop rest (events ++ new)

  unfoldable pub load_events : List String → Option (List Flat)
  unfolding load_loop
  load_events lines = load_loop lines []
