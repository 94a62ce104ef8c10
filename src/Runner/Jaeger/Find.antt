-- ===== src/Runner/Jaeger/Find.antt =====
-- `Jaeger.find_spans` of testbed/run.py, over the answer of `_get`; the query's text is left out.
-- `none` is an exception. A value that is not a dict and a key that is not a text count as exceptions.
pub mod Laws
use autonat_project.Base.{
  String, ◌≡◌, refl, Bool, Option, none, some, List, [], ◌∷◌, ◌++◌, All, arith, if◌then◌else◌,
  ◌>>=◌, ◌==◌, eq_iff, Bool-cases, Option-cases, inl, inr,
}
use autonat_project.Base.Dict.{Dict, lookup, insert, lookup-insert}
use autonat_project.Json.{
  Json, Fields, Python, str, list, dict, nil, end, items, field?, default, truthy, iterate,
}
use autonat_project.Trace.Attrs.{Attrs, traverse}
use autonat_project.Runner.Jaeger.{JaegerEvent, JaegerSpan}
use autonat_project.Runner.Jaeger.Laws.{IsDict, HasDicts}

-- `v.get(k, d)`
unfoldable pub get : String → Json → Json → Option Json
get k d (dict fs) = some (default d (field? k fs))
get k d _ = none

unfoldable pub fields_of : Json → Option Fields
fields_of (dict fs) = some fs
fields_of _ = none

unfoldable pub text? : Json → Option String
text? (str s) = some s
text? _ = none

-- The value of the first of the three types that is there.
unfoldable pub typed_value : Fields → Option Json
typed_value fs = elim (field? "stringValue" fs) [
  | some v ↦ some v
  | none ↦ elim (field? "intValue" fs) [ some v ↦ some v | none ↦ field? "boolValue" fs ]
]

-- An assignment, if there is a value.
unfoldable pub assign : String → Option Json → Attrs → Attrs
assign k none out = out
assign k (some v) out = insert k v out

-- The body of the loop over the attributes of an event.
unfoldable pub event_attr : Json → Attrs → Option Attrs
unfolding typed_value assign
event_attr a out = do
  key ← get "key" (str "") a
  val ← get "value" (dict end) a
  k ← text? key
  fs ← fields_of val
  some (assign k (typed_value fs) out)

-- A loop that fills a dict.
unfoldable pub fill : (Json → Attrs → Option Attrs) → List Json → Attrs → Option Attrs
fill step [] out = some out
fill step (a ∷ rest) out = elim (step a out) [ none ↦ none | some d ↦ fill step rest d ]

-- The dict that a loop over a value fills.
unfoldable pub filled : (Json → Attrs → Option Attrs) → Json → Option Attrs
unfolding fill
filled step v = do listed ← iterate v; fill step listed []

unfoldable pub find_event : Json → Option JaegerEvent
find_event ev = do
  raw ← get "attributes" (list nil) ev
  attrs ← filled event_attr raw
  name ← get "name" (str "") ev
  time_ns ← get "timeUnixNano" (str "0") ev
  some (record { name = name; time_ns = time_ns; attrs = attrs })

-- The lists that the rounds of a loop add, one after another.
unfoldable pub gather {ℓ} : {A : Type ℓ} → (Json → Option (List A)) → List Json → Option (List A)
gather f [] = some []
gather f (v ∷ vs) = do xs ← f v; ys ← gather f vs; some (xs ++ ys)

module _ (py : Python) where
  -- The value of "arrayValue", if there is one.
  unfoldable pub array_value : Fields → Option (Option Json)
  array_value fs = elim (field? "arrayValue" fs) [
    | none ↦ some none
    | some array ↦ (do
      raw ← get "values" (list nil) array
      listed ← iterate raw
      texts ← traverse (λ v. get "stringValue" (str (py.to_str v)) v) listed
      some (some (list (items texts))))
  ]

  -- The body of the loop over the attributes of a span.
  unfoldable pub span_attr : Json → Attrs → Option Attrs
  unfolding typed_value assign array_value
  span_attr a out = do
    key ← get "key" (str "") a
    val ← get "value" (dict end) a
    k ← text? key
    fs ← fields_of val
    array ← array_value fs
    some (assign k array (assign k (typed_value fs) out))

  unfoldable pub find_span : Json → Option JaegerSpan
  unfolding filled span_attr find_event
  find_span s = do
    raw ← get "attributes" (list nil) s
    attrs ← filled span_attr raw
    given ← get "events" (list nil) s
    listed ← iterate (if truthy given then given else list nil)
    events ← traverse find_event listed
    name ← get "name" (str "") s
    trace_id ← get "traceId" (str "") s
    start_ns ← get "startTimeUnixNano" (str "0") s
    some (record {
      name = name;
      trace_id = trace_id;
      start_ns = start_ns;
      attrs = attrs;
      events = events;
    })

  -- The spans of a value under a key, by a loop over that value.
  unfoldable pub scope_spans : Json → Option (List JaegerSpan)
  unfolding find_span
  scope_spans scope = do
    raw ← get "spans" (list nil) scope
    listed ← iterate raw
    traverse find_span listed

  unfoldable pub resource_spans : Json → Option (List JaegerSpan)
  unfolding gather scope_spans
  resource_spans rs = do
    raw ← get "scopeSpans" (list nil) rs
    listed ← iterate raw
    gather scope_spans listed

  -- `find_spans`; the answer `none` is `_get`'s None.
  unfoldable pub find_spans : Option Json → Option (List JaegerSpan)
  unfolding resource_spans
  find_spans none = some []
  find_spans (some data') =
      if truthy data'
      then (do
        result ← get "result" (dict end) data'
        first ← get "resourceSpans" (list nil) result
        second ← get "resourceSpans" (list nil) data'
        listed ← iterate (if truthy first then first else second)
        gather resource_spans listed)
      else some []
