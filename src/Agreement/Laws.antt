-- ===== src/Agreement/Laws.antt =====
-- `_session_events` and `_list_attr` of testbed/analyze.py against a "has_event" assertion of
-- testbed/eval-assertions.py.
use autonat_project.Base.{
  String, ◌≡◌, refl, sym, ◌∙◌, ap, ◌≤◌, Bool, ◌||◌, Option, none, some, List, [], ◌∷◌, ◌++◌, map,
  ◌>>=◌, keep, any, any-append, last?, length, length-map, arith, All, OneOf, Bool-cases, inl, inr,
}
use autonat_project.Json.{Python, is_text}
use autonat_project.Trace.Attrs.{Event, Span}
use autonat_project.Trace.Parse.{
  Activity, Trace, activity, as_event, testbed_span_names, parse_trace,
}
use autonat_project.Trace.Views.{spans_of, named, is_event, session_with, trace_of, parse_trace_lem}
use autonat_project.Metrics.Events.{named_event, lists_some, session_events}
use autonat_project.Assertions.Load.{Flat, load_events}
use autonat_project.Assertions.Evaluate.{passes, evaluate}
use autonat_project.Agreement.Lists.{any-map, any-keep, any-same, any-last, last_has}
use autonat_project.Agreement.Events.{all_flats, load_events-flats}
use autonat_project.Agreement.Filters.{IsData, not_empty, evaluate-is_wanted}
use autonat_project.Agreement.Reports.{
  is_report, Stands, in_session, all_flats-report, testbed_name,
}

module _ (py : Python) (n k : String) where
  abbrev pub has_report : Activity → Bool
  has_report a = any (is_report py n k) a.events

  pub session-report :
      (t : Trace) (o : Option Activity) (es : List Event)
      → t.session ≡ session_with o es
      → any (lists_some py k) (session_events t n)
        ≡ (last_has has_report o || any (is_report py n k) es)
  unfolding session_events any
  session-report t none [] h = rw (h) refl
  session-report t (some a) [] h =
      rw (h) (any-keep (lists_some py k) (named_event n) a.events ∙ ground arith)
  session-report t none (e ∷ es) h = rw (h) (any-keep (lists_some py k) (named_event n) (e ∷ es))
  session-report t (some a) (e ∷ es) h = rw (h) (
      any-keep (lists_some py k) (named_event n) (a.events ++ e ∷ es)
      ∙ any-append (is_report py n k) a.events (e ∷ es))

  pub own-reports :
      (ss : List Span)
      → OneOf n testbed_span_names
      → any (is_report py n k) (map as_event (keep is_event ss))
        ≡ any (λ s. is_report py n k (as_event s)) ss
  own-reports ss named_so =
      any-map (is_report py n k) as_event (keep is_event ss)
      ∙ any-keep (λ s. is_report py n k (as_event s)) is_event ss
      ∙ any-same _ _ ss (λ s. elim (Bool-cases (is_text n s.name)) [
        | inl e ↦ rw (testbed_name n s.name named_so e) refl
        | inr e ↦ rw e (ground arith)
      ])

  session-reports :
      (ss : List Span)
      → length (keep (named "autonat.session") ss) ≤ 1
      → last_has has_report (last? (map activity (keep (named "autonat.session") ss)))
        ≡ any (in_session py n k) ss
  session-reports ss one =
      sym (
        any-last has_report (map activity (keep (named "autonat.session") ss))
          (rw (length-map) one))
      ∙ any-map has_report activity (keep (named "autonat.session") ss)
      ∙ any-keep (λ s. any (is_report py n k) s.events) (named "autonat.session") ss

-- Take a trace file with spans that `parse_trace` can read, among them one session at most, and an
-- event of the testbed of which no other span than the session holds an event. Then both programs
-- read the file, and for each key that `load_events` does not write itself, the "has_event"
-- assertion with the filter that the key's list is not empty passes exactly when one of the
-- session's events of that name in `analyze.py` has a list with an item under the key.
pub has_event-session_events :
    (py : Python) (n k : String) (lines : List String) (ss : List Span)
    → OneOf n testbed_span_names
    → IsData k
    → spans_of py lines ≡ some ss
    → length (keep (named "autonat.session") ss) ≤ 1
    → All (Stands py n k) ss
    → (t : Trace) × (events : List Flat) × (parse_trace py lines ≡ some t)
      × (load_events py lines ≡ some events)
      × ((do v ← evaluate py (not_empty n k) events; some (passes v))
          ≡ some (any (lists_some py k) (session_events t n)))
has_event-session_events py n k lines ss named_so data_key read one stands = (
  trace_of ss,
  all_flats py ss,
  parse_trace_lem py lines ∙ rw (read) refl,
  load_events-flats py lines ss read,
  evaluate-is_wanted py n k (all_flats py ss)
      ∙ ap some (
          all_flats-report py n k ss data_key named_so stands
          ∙ sym (
              session-report py n k (trace_of ss)
                (last? (map activity (keep (named "autonat.session") ss)))
                (map as_event (keep is_event ss)) refl
              ∙ rw (session-reports py n k ss one, own-reports py n k ss named_so) refl)),
)
