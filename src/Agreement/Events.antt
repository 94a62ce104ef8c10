-- ===== src/Agreement/Events.antt =====
-- What `load_events` of testbed/eval-assertions.py gives for a file that `parse_trace` of
-- testbed/analyze.py can read, by the spans of the file.
use autonat_project.Base.{
  String, ◌≡◌, refl, ◌∙◌, ap, Option, none, some, List, [], ◌∷◌, ◌++◌, map, if◌then◌else◌,
  Option-cases, Bool-cases, inl, inr,
}
use mathlib.Core.List.{append-nil, append_assoc}
use autonat_project.Base.Always.{Always, Always-bind, Always-some}
use autonat_project.Base.Text.{strip, is_empty}
use autonat_project.Json.{
  Json, null, bool, int, float, str, list, dict, nil, field?, default, Python,
}
use autonat_project.Trace.Attrs.{Span, Event, span_of, event_of, flatten_attrs, rounds, traverse}
use autonat_project.Trace.Parse.{decode_line}
use autonat_project.Trace.Views.{is_hashable, with_name, spans_of, prepend}
use autonat_project.Assertions.Load.{
  Flat, in_library, mark, with_int_time, span_event, own_event, with_own, span_events, line_events,
  load_loop, load_events,
}

module _ (py : Python) where
  -- One event of a span.
  abbrev pub flat_of : Json → Event → Flat
  flat_of span_name e = with_int_time py (mark e.name span_name e.time e.attrs)

  -- The event that a span is itself.
  unfoldable pub own_of : Span → List Flat
  own_of s = if in_library s.name then [] else own_event py s.name s.start_time s.attrs

  abbrev pub flats : Span → List Flat
  flats s = map (flat_of s.name) s.events ++ own_of s

  unfoldable pub all_flats : List Span → List Flat
  all_flats [] = []
  all_flats (s ∷ ss) = flats s ++ all_flats ss

  event_flat : (n v : Json) → Always (λ e. span_event py n v ≡ some (flat_of n e)) (event_of v)
  unfolding event_of span_event
  event_flat n (dict fs) =
      Always-bind _ (flatten_attrs (default (list nil) (field? "Attributes" fs))) _
        (λ attrs f. Always-some _ _ (rw f refl))
  event_flat n null = λ e h. absurd (cc h)
  event_flat n (bool b) = λ e h. absurd (cc h)
  event_flat n (int i) = λ e h. absurd (cc h)
  event_flat n (float r) = λ e h. absurd (cc h)
  event_flat n (str s) = λ e h. absurd (cc h)
  event_flat n (list vs) = λ e h. absurd (cc h)

  events_flat :
      (n : Json) (vs : List Json)
      → Always
          (λ es. traverse (span_event py n) vs ≡ some (map (flat_of n) es))
          (traverse event_of vs)
  unfolding traverse
  events_flat n [] = Always-some _ [] refl
  events_flat n (v ∷ vs) = Always-bind _ (event_of v) _ (λ e f.
      Always-bind _ (traverse event_of vs) _
        (λ es fs. Always-some _ (e ∷ es) (rw (event_flat n v e f, events_flat n vs es fs) refl)))

  span_flat : (v : Json) → Always (λ s. span_events py v ≡ some (flats s)) (span_of v)
  unfolding span_of span_events with_own own_of
  span_flat (dict fs) =
      Always-bind _ (flatten_attrs (default (list nil) (field? "Attributes" fs))) _ (λ attrs ha.
        Always-bind _ (rounds (default null (field? "Events" fs))) _ (λ raw hr.
          Always-bind _ (traverse event_of raw) _ (λ events he. Always-some _ _ (
            rw (hr, events_flat (default (str "") (field? "Name" fs)) raw events he, ha)
              (elim (Bool-cases (in_library (default (str "") (field? "Name" fs)))) [
                | inl b ↦ rw (b, append-nil) refl
                | inr b ↦ rw b refl
              ])))))
  span_flat null = λ e h. absurd (cc h)
  span_flat (bool b) = λ e h. absurd (cc h)
  span_flat (int i) = λ e h. absurd (cc h)
  span_flat (float r) = λ e h. absurd (cc h)
  span_flat (str s) = λ e h. absurd (cc h)
  span_flat (list vs) = λ e h. absurd (cc h)

  -- The events of what a line holds.
  abbrev line_flats : Option Span → List Flat
  line_flats none = []
  line_flats (some s) = flats s

  line_flat :
      (line : String)
      → Always (λ o. line_events py line ≡ some (line_flats o)) (decode_line py line)
  unfolding decode_line line_events
  line_flat line = elim (Bool-cases (is_empty (strip line))) [
    | inl b ↦ rw b (Always-some _ none refl)
    | inr b ↦ rw b (elim (Option-cases (py.loads (strip line))) [
      | inl e ↦ rw e (Always-some _ none refl)
      | inr (v, e) ↦
          rw e (Always-bind _ (span_of v) _ (λ s h. Always-some _ (some s) (span_flat v s h)))
    ])
  ]

  -- A line whose span has a name that `parse_trace` can look up.
  with_name_same :
      (line : String) (decoded : Option Span)
      → line_events py line ≡ some (line_flats decoded)
      → Always (λ o. line_events py line ≡ some (line_flats o)) (with_name decoded)
  unfolding with_name
  with_name_same line none h = Always-some _ none h
  with_name_same line (some s) h = elim (Bool-cases (is_hashable s.name)) [
    | inl b ↦ rw b (Always-some _ (some s) h)
    | inr b ↦ rw b (λ p e. absurd (cc e))
  ]

  prepend_flats :
      (o : Option Span) (ss : List Span) → line_flats o ++ all_flats ss ≡ all_flats (prepend o ss)
  unfolding all_flats
  prepend_flats none ss = refl
  prepend_flats (some s) ss = refl

  load_loop-flats :
      (lines : List String) (acc : List Flat)
      → Always (λ ss. load_loop py lines acc ≡ some (acc ++ all_flats ss)) (spans_of py lines)
  unfolding spans_of load_loop all_flats
  load_loop-flats [] acc = Always-some _ [] (rw append-nil refl)
  load_loop-flats (line ∷ rest) acc = Always-bind _ (decode_line py line) _ (λ decoded hd.
      Always-bind _ (with_name decoded) _ (λ o hn. Always-bind _ (spans_of py rest) _ (λ ss hs.
        Always-some _ _ (
          rw (with_name_same line decoded (line_flat line decoded hd) o hn) (
            load_loop-flats rest (acc ++ line_flats o) ss hs
            ∙ ap some (
                append_assoc acc (line_flats o) (all_flats ss)
                ∙ ap (λ t. acc ++ t) (prepend_flats o ss)))))))

  -- For every file whose spans `parse_trace` can read.
  pub load_events-flats :
      (lines : List String)
      → Always (λ ss. load_events py lines ≡ some (all_flats ss)) (spans_of py lines)
  unfolding load_events
  load_events-flats lines = load_loop-flats lines []
