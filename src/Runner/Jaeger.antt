-- ===== src/Runner/Jaeger.antt =====
-- The spans that `Jaeger.find_spans` of testbed/run.py returns, what is counted of them, and their
-- export for testbed/analyze.py.
pub mod Laws
pub mod Find
use autonat_project.Base.{
  ℕ, ◌+◌, String, Bool, true, false, ◌||◌, Option, none, some, List, [], ◌∷◌, map, any,
  if◌then◌else◌,
}
use autonat_project.Base.Int.{ℤ, pos}
use autonat_project.Base.Text.{isdigit, int_of_text}
use autonat_project.Json.{
  Json, null, bool, int, str, list, dict, end, field, items, is_text, Python,
}
use autonat_project.Trace.Attrs.{Attrs}

pub record JaegerEvent : Type 0 where
  pub name : Json
  pub time_ns : Json
  pub attrs : Attrs

pub record JaegerSpan : Type 0 where
  pub name : Json
  pub trace_id : Json
  pub start_ns : Json
  pub attrs : Attrs
  pub events : List JaegerEvent

-- `filter_fn is None or filter_fn(s)`
abbrev pub passes_filter : Option (JaegerSpan → Bool) → JaegerSpan → Bool
passes_filter none s = true
passes_filter (some f) s = f s

-- `count_spans`, over what `find_spans` returns.
unfoldable pub count_spans : String → Option (JaegerSpan → Bool) → List JaegerSpan → ℕ
count_spans name filter_fn [] = 0
count_spans name filter_fn (s ∷ spans) =
    let counted = count_spans name filter_fn spans in
    if is_text name s.name
    then if passes_filter filter_fn s then counted + 1 else counted
    else counted

-- `has_convergence_span`, over what `find_spans` returns.
unfoldable pub has_convergence_span : List JaegerSpan → Bool
unfolding any
has_convergence_span spans =
    any (λ s. is_text "reachable_addrs_changed" s.name || is_text "reachability_changed" s.name)
      spans

-- `int(v)` for `isinstance(v, int) or (isinstance(v, str) and v.isdigit())`
unfoldable pub as_int : Json → Option ℤ
as_int (int n) = some n
as_int (bool b) = some (if b then pos 1 else pos 0)
as_int (str s) = if isdigit s then int_of_text s else none
as_int _ = none

module _ (py : Python) where
  -- `str(v)`
  text_of : Json → String
  text_of (str s) = s
  text_of v = py.to_str v

  -- The type and the value that an attribute of an event is written with.
  unfoldable pub scalar : Json → String × Json
  unfolding text_of
  scalar v = elim (as_int v) [ some n ↦ ("INT64", int n) | none ↦ ("STRING", str (text_of v)) ]

  -- The same of an attribute of a span.
  unfoldable pub typed : Json → String × Json
  unfolding scalar
  typed (list vs) = ("STRINGSLICE", list vs)
  typed v = scalar v

  unfoldable pub otel_attr : (Json → String × Json) → String × Json → Json
  otel_attr type_of (k, v) = dict (
      field "Key" (str k) (
        field "Value" (dict (field "Type" (str (type_of v).0) (field "Value" (type_of v).1 end)))
          end))

  unfoldable pub otel_event : JaegerEvent → Json
  unfolding otel_attr
  otel_event e = dict (
      field "Name" e.name (
        field "Time" e.time_ns
          (field "Attributes" (list (items (map (otel_attr scalar) e.attrs))) end)))

  -- `None` for a span with no events.
  unfoldable pub otel_events : List JaegerEvent → Json
  unfolding otel_event
  otel_events [] = null
  otel_events (e ∷ es) = list (items (map otel_event (e ∷ es)))

  -- What `export_trace_jsonl` makes of a span.
  unfoldable pub export_span : JaegerSpan → Json
  unfolding otel_attr otel_events
  export_span s = dict (
      field "Name" s.name (
        field "SpanContext" (dict (field "TraceID" s.trace_id end)) (
          field "Attributes" (list (items (map (otel_attr typed) s.attrs)))
            (field "Events" (otel_events s.events) end))))

  unfoldable pub export_trace_jsonl : List JaegerSpan → List Json
  unfolding export_span
  export_trace_jsonl spans = map export_span spans
