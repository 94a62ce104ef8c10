-- ===== src/Runner/Jaeger/Laws.antt =====
-- What the exported spans are when testbed/analyze.py reads them.
use mathlib.Core.List.{append-nil, append_assoc}
use autonat_project.Base.{
  ◌+◌, ◌≡◌, refl, sym, ◌∙◌, ap, String, false, none, some, List, [], ◌∷◌, ◌++◌, map, any, All,
  arith, Bool-cases, inl, inr, ◌==◌, eq_iff, ltb,
}
use autonat_project.Base.Dict.{Dict, lookup, insert, insert_all}
use autonat_project.Json.{Json, str, Python, items, elements, field?, list, truthy}
use autonat_project.Trace.Attrs.{
  Attrs, Span, Event, attr_of, flatten_loop, flatten_attrs, traverse, event_of, span_of, rounds,
  extract_value,
}
use autonat_project.Runner.Jaeger.{
  JaegerSpan, JaegerEvent, count_spans, has_convergence_span, scalar, typed, otel_attr, otel_event,
  otel_events, export_span, export_trace_jsonl,
}

-- A dict holds each key once.
abbrev pub IsDict {ℓ} : {V : Type ℓ} → Dict V → Type ℓ
IsDict [] = Unit
IsDict ((k, v) ∷ d) = (lookup k d ≡ none) × IsDict d

-- A span whose attributes, and those of its events, are dicts.
abbrev pub HasDicts : JaegerSpan → Type 0
HasDicts s = IsDict s.attrs × All (λ (e : JaegerEvent). IsDict e.attrs) s.events

insert-new {ℓ} :
    {V : Type ℓ} (k : String) (v : V) (d : Dict V)
    → lookup k d ≡ none
    → insert k v d ≡ d ++ (k, v) ∷ []
unfolding lookup insert
insert-new k v [] h = refl
insert-new k v ((j, w) ∷ d) h = elim (Bool-cases (j == k)) [
  | inl e ↦ absurd (ground (arith))
  | inr e ↦ rw e (ap (λ x. (j, w) ∷ x) (insert-new k v d (ground arith)))
]

elements-items : (vs : List Json) → elements (items vs) ≡ vs
elements-items [] = refl
elements-items (v ∷ vs) = ap (λ ws. v ∷ ws) (elements-items vs)

-- The attributes with their values as they are written.
abbrev pub with_values : (Json → String × Json) → Attrs → Attrs
with_values type_of [] = []
with_values type_of ((k, v) ∷ d) = (k, (type_of v).1) ∷ with_values type_of d

module _ (type_of : Json → String × Json) where
  flatten_loop-exported :
      (py : Python) (d out : Attrs)
      → flatten_loop (map (otel_attr py type_of) d) out
        ≡ some (insert_all (with_values type_of d) out)
  unfolding flatten_loop otel_attr attr_of extract_value field? insert_all
  flatten_loop-exported py [] out = refl
  flatten_loop-exported py ((k, v) ∷ d) out =
      flatten_loop-exported py d (insert k (type_of v).1 out)

lookup-with_values :
    (type_of : Json → String × Json) (k : String) (d : Attrs)
    → lookup k d ≡ none
    → lookup k (with_values type_of d) ≡ none
unfolding lookup
lookup-with_values type_of k [] h = refl
lookup-with_values type_of k ((j, v) ∷ d) h = elim (Bool-cases (j == k)) [
  | inl e ↦ absurd (ground arith)
  | inr e ↦ rw e (lookup-with_values type_of k d (ground arith))
]

IsDict-with_values :
    (type_of : Json → String × Json) (d : Attrs) → IsDict d → IsDict (with_values type_of d)
IsDict-with_values type_of [] h = tt
IsDict-with_values type_of ((k, v) ∷ d) (h, hs) =
    (lookup-with_values type_of k d h, IsDict-with_values type_of d hs)

-- None of the keys is in the dict.
abbrev Fresh {ℓ} : {V : Type ℓ} → Dict V → Dict V → Type ℓ
Fresh [] out = Unit
Fresh ((k, v) ∷ d) out = (lookup k out ≡ none) × Fresh d out

lookup-snoc {ℓ} :
    {V : Type ℓ} (j k : String) (v : V) (out : Dict V)
    → lookup j out ≡ none
    → (k == j) ≡ false
    → lookup j (out ++ (k, v) ∷ []) ≡ none
unfolding lookup
lookup-snoc j k v [] h d = rw d
lookup-snoc j k v ((i, w) ∷ out) h d = elim (Bool-cases (i == j)) [
  | inl e ↦ absurd (ground arith)
  | inr e ↦ rw e (lookup-snoc j k v out (ground arith) d)
]

Fresh-snoc {ℓ} :
    {V : Type ℓ} (d out : Dict V) (k : String) (v : V)
    → lookup k d ≡ none
    → Fresh d out
    → Fresh d (out ++ (k, v) ∷ [])
unfolding lookup
Fresh-snoc [] out k v h f = tt
Fresh-snoc ((j, w) ∷ d) out k v h (f, fs) = elim (Bool-cases (j == k)) [
  | inl e ↦ absurd (ground arith)
  | inr e ↦ (
    lookup-snoc j k v out f (ground (arith, eq_iff j k, eq_iff k j)),
    Fresh-snoc d out k v (ground arith) fs,
  )
]

insert_all-Fresh {ℓ} :
    {V : Type ℓ} (d out : Dict V) → IsDict d → Fresh d out → insert_all d out ≡ out ++ d
unfolding insert_all
insert_all-Fresh [] out h f = sym (append-nil out)
insert_all-Fresh ((k, v) ∷ d) out (h, hs) (f, fs) = rw (insert-new k v out f) (
    insert_all-Fresh d (out ++ (k, v) ∷ []) hs (Fresh-snoc d out k v h fs)
    ∙ append_assoc out ((k, v) ∷ []) d)

Fresh-empty {ℓ} : {V : Type ℓ} (d : Dict V) → Fresh d []
unfolding lookup
Fresh-empty [] = tt
Fresh-empty ((k, v) ∷ d) = (refl, Fresh-empty d)

module _ (py : Python) where
  flatten_attrs-exported :
      (type_of : Json → String × Json) (d : Attrs)
      → IsDict d
      → flatten_attrs (list (items (map (otel_attr py type_of) d))) ≡ some (with_values type_of d)
  unfolding flatten_attrs rounds
  flatten_attrs-exported type_of d h =
      rw (elements-items, flatten_loop-exported type_of py d [])
        (ap some (insert_all-Fresh _ [] (IsDict-with_values type_of d h) (Fresh-empty _)))

  -- An event and a span as they are read back.
  abbrev pub read_event : JaegerEvent → Event
  read_event e = record { name = e.name; time = e.time_ns; attrs = with_values (scalar py) e.attrs }

  abbrev pub read_span : JaegerSpan → Span
  read_span s = record {
    name = s.name;
    attrs = with_values (typed py) s.attrs;
    events = map read_event s.events;
    start_time = str "";
  }

  event_of-exported :
      (e : JaegerEvent) → IsDict e.attrs → event_of (otel_event py e) ≡ some (read_event e)
  unfolding event_of otel_event field?
  event_of-exported e h = rw (flatten_attrs-exported (scalar py) e.attrs h) refl

  events-exported :
      (es : List JaegerEvent)
      → All (λ (e : JaegerEvent). IsDict e.attrs) es
      → traverse event_of (map (otel_event py) es) ≡ some (map read_event es)
  unfolding traverse
  events-exported [] h = refl
  events-exported (e ∷ es) (h, hs) = rw (event_of-exported e h, events-exported es hs) refl

  raw_events-exported :
      (es : List JaegerEvent) → rounds (otel_events py es) ≡ some (map (otel_event py) es)
  unfolding rounds otel_events truthy
  raw_events-exported [] = refl
  raw_events-exported (e ∷ es) = rw elements-items refl

  span_of-export_span :
      (s : JaegerSpan)
      → IsDict s.attrs
      → All (λ (e : JaegerEvent). IsDict e.attrs) s.events
      → span_of (export_span py s) ≡ some (read_span s)
  unfolding span_of export_span field?
  span_of-export_span s h hs =
      rw
        (
          flatten_attrs-exported (typed py) s.attrs h,
          raw_events-exported s.events,
          events-exported s.events hs,
        )
        refl

  pub export-roundtrip :
      (spans : List JaegerSpan)
      → All HasDicts spans
      → traverse span_of (export_trace_jsonl py spans) ≡ some (map read_span spans)
  unfolding export_trace_jsonl traverse
  export-roundtrip [] h = refl
  export-roundtrip (s ∷ spans) ((h, hs), rest) =
      rw (span_of-export_span s h hs, export-roundtrip spans rest) refl

-- There is a convergence span exactly when the spans of one of the two names are more than none.
pub has_convergence_span-count_spans :
    (spans : List JaegerSpan)
    → has_convergence_span spans
      ≡ ltb 0 (
          count_spans "reachable_addrs_changed" none spans
          + count_spans "reachability_changed" none spans)
unfolding has_convergence_span count_spans any
has_convergence_span-count_spans [] = refl
has_convergence_span-count_spans (s ∷ spans) =
    ground (arith, has_convergence_span-count_spans spans)
