-- ===== src/Runner/Jaeger/Find/Laws.antt =====
-- What `find_spans` returns has dicts of attributes, so that its export can be read back.
use autonat_project.Base.Always.{Always, Always-bind, Always-some}
use autonat_project.Base.{
  String, ◌≡◌, refl, ◌∙◌, Option, none, some, List, [], ◌∷◌, ◌++◌, map, All, arith, ◌==◌, eq_iff,
  Bool-cases, Option-cases, inl, inr, if◌then◌else◌,
}
use autonat_project.Base.Dict.{lookup, insert, lookup-insert}
use autonat_project.Json.{Json, str, Python, list, nil, dict, end, iterate, truthy}
use autonat_project.Trace.Attrs.{Attrs, traverse, span_of}
use autonat_project.Runner.Jaeger.{JaegerEvent, JaegerSpan, export_trace_jsonl}
use autonat_project.Runner.Jaeger.Laws.{IsDict, HasDicts, read_span, export-roundtrip}
use autonat_project.Runner.Jaeger.Find.{
  get, fields_of, text?, typed_value, assign, event_attr, fill, filled, find_event, gather,
  array_value, span_attr, find_span, scope_spans, resource_spans, find_spans,
}

IsDict-insert : (k : String) (v : Json) (d : Attrs) → IsDict d → IsDict (insert k v d)
unfolding insert lookup
IsDict-insert k v [] h = (refl, tt)
IsDict-insert k v ((j, w) ∷ d) (h, hs) = elim (Bool-cases (j == k)) [
  | inl e ↦ rw e (h, hs)
  | inr e ↦
      rw e (lookup-insert k j v d ∙ ground (arith, eq_iff j k, eq_iff k j), IsDict-insert k v d hs)
]

IsDict-assign : (k : String) (o : Option Json) (d : Attrs) → IsDict d → IsDict (assign k o d)
unfolding assign
IsDict-assign k none d h = h
IsDict-assign k (some v) d h = IsDict-insert k v d h

-- A step of a loop that keeps a dict one.
abbrev Keeps : (Json → Attrs → Option Attrs) → Type 0
Keeps step = (a : Json) (d : Attrs) → IsDict d → Always (λ (e : Attrs). IsDict e) (step a d)

event_attr-Keeps : Keeps event_attr
unfolding event_attr
event_attr-Keeps a d h = Always-bind _ (get "key" (str "") a) _ (λ key _.
    Always-bind _ (get "value" (dict end) a) _ (λ val _. Always-bind _ (text? key) _ (λ k _.
      Always-bind _ (fields_of val) _
        (λ fs _. Always-some _ _ (IsDict-assign k (typed_value fs) d h)))))

fill-Keeps :
    (step : Json → Attrs → Option Attrs)
    → Keeps step
    → (vs : List Json) (d : Attrs) → IsDict d
    → Always (λ (e : Attrs). IsDict e) (fill step vs d)
unfolding fill
fill-Keeps step keeps [] d h = Always-some _ d h
fill-Keeps step keeps (v ∷ vs) d h = elim (Option-cases (step v d)) [
  | inl e ↦ λ x. rw (fill, e) (λ f. absurd (cc))
  | inr (u, e) ↦ λ x. rw (fill, e) (fill-Keeps step keeps vs u (keeps v d h u e) x)
]

filled-IsDict :
    (step : Json → Attrs → Option Attrs)
    → Keeps step
    → (v : Json) → Always (λ (e : Attrs). IsDict e) (filled step v)
unfolding filled
filled-IsDict step keeps v =
    Always-bind _ (iterate v) _ (λ listed _. fill-Keeps step keeps listed [] tt)

find_event-IsDict : (v : Json) → Always (λ (e : JaegerEvent). IsDict e.attrs) (find_event v)
unfolding find_event
find_event-IsDict v = Always-bind _ (get "attributes" (list nil) v) _ (λ raw _.
    Always-bind _ (filled event_attr raw) _ (λ attrs e.
      Always-bind _ (get "name" (str "") v) _ (λ name _.
        Always-bind _ (get "timeUnixNano" (str "0") v) _
          (λ time _. Always-some _ _ (filled-IsDict event_attr event_attr-Keeps raw attrs e)))))

traverse-All {ℓ κ} :
    {A : Type ℓ} (P : A → Type κ) (f : Json → Option A)
    → ((v : Json) → Always P (f v))
    → (vs : List Json) → Always (All P) (traverse f vs)
unfolding traverse
traverse-All P f h [] = Always-some _ _ tt
traverse-All P f h (v ∷ vs) = Always-bind _ (f v) _ (λ x e.
    Always-bind _ (traverse f vs) _
      (λ xs es. Always-some _ _ (h v x e, traverse-All P f h vs xs es)))

All-append {ℓ κ} :
    {A : Type ℓ} (P : A → Type κ) (xs ys : List A) → All P xs → All P ys → All P (xs ++ ys)
All-append P [] ys h k = k
All-append P (x ∷ xs) ys (h, hs) k = (h, All-append P xs ys hs k)

gather-All {ℓ κ} :
    {A : Type ℓ} (P : A → Type κ) (f : Json → Option (List A))
    → ((v : Json) → Always (All P) (f v))
    → (vs : List Json) → Always (All P) (gather f vs)
unfolding gather
gather-All P f h [] = Always-some _ _ tt
gather-All P f h (v ∷ vs) = Always-bind _ (f v) _ (λ xs e.
    Always-bind _ (gather f vs) _
      (λ ys es. Always-some _ _ (All-append P xs ys (h v xs e) (gather-All P f h vs ys es))))

module _ (py : Python) where
  span_attr-Keeps : Keeps (span_attr py)
  unfolding span_attr
  span_attr-Keeps a d h = Always-bind _ (get "key" (str "") a) _ (λ key _.
      Always-bind _ (get "value" (dict end) a) _ (λ val _. Always-bind _ (text? key) _ (λ k _.
        Always-bind _ (fields_of val) _ (λ fs _. Always-bind _ (array_value py fs) _ (λ array _.
          Always-some _ _ (IsDict-assign k array _ (IsDict-assign k (typed_value fs) d h)))))))

  find_span-HasDicts : (v : Json) → Always HasDicts (find_span py v)
  unfolding find_span
  find_span-HasDicts v = Always-bind _ (get "attributes" (list nil) v) _ (λ raw _.
      Always-bind _ (filled (span_attr py) raw) _ (λ attrs e.
        Always-bind _ (get "events" (list nil) v) _ (λ given _.
          Always-bind _ (iterate (if truthy given then given else list nil)) _ (λ listed _.
            Always-bind _ (traverse find_event listed) _ (λ events es.
              Always-bind _ (get "name" (str "") v) _ (λ name _.
                Always-bind _ (get "traceId" (str "") v) _ (λ trace _.
                  Always-bind _ (get "startTimeUnixNano" (str "0") v) _ (λ start _.
                    Always-some _ _ (
                      filled-IsDict (span_attr py) span_attr-Keeps raw attrs e,
                      traverse-All (λ (e : JaegerEvent). IsDict e.attrs) find_event
                          find_event-IsDict listed events es,
                    )))))))))

  scope_spans-HasDicts : (v : Json) → Always (All HasDicts) (scope_spans py v)
  unfolding scope_spans
  scope_spans-HasDicts v = Always-bind _ (get "spans" (list nil) v) _ (λ raw _.
      Always-bind _ (iterate raw) _
        (λ listed _. traverse-All HasDicts (find_span py) find_span-HasDicts listed))

  resource_spans-HasDicts : (v : Json) → Always (All HasDicts) (resource_spans py v)
  unfolding resource_spans
  resource_spans-HasDicts v = Always-bind _ (get "scopeSpans" (list nil) v) _ (λ raw _.
      Always-bind _ (iterate raw) _
        (λ listed _. gather-All HasDicts (scope_spans py) scope_spans-HasDicts listed))

  find_spans-HasDicts : (answer : Option Json) → Always (All HasDicts) (find_spans py answer)
  unfolding find_spans
  find_spans-HasDicts none = Always-some _ _ tt
  find_spans-HasDicts (some v) = elim (Bool-cases (truthy v)) [
    | inl e ↦ rw e (
        Always-bind _ (get "result" (dict end) v) _ (λ result _.
          Always-bind _ (get "resourceSpans" (list nil) result) _ (λ first _.
            Always-bind _ (get "resourceSpans" (list nil) v) _ (λ second _.
              Always-bind _ (iterate (if truthy first then first else second)) _ (λ listed _.
                gather-All HasDicts (resource_spans py) resource_spans-HasDicts listed)))))
    | inr e ↦ rw e (Always-some _ _ tt)
  ]

  -- Whatever Jaeger answers, if `find_spans` returns spans, then what `parse_trace` takes from each
  -- object of their export is the span: with its name, its attributes in order under the same keys,
  -- and its events in order, with the values they are written with. The start time is not written,
  -- so that it is read as empty.
  pub find_spans-export_trace_jsonl :
      (answer : Option Json) (spans : List JaegerSpan)
      → find_spans py answer ≡ some spans
      → traverse span_of (export_trace_jsonl py spans) ≡ some (map (read_span py) spans)
  find_spans-export_trace_jsonl answer spans h =
      export-roundtrip py spans (find_spans-HasDicts answer spans h)
