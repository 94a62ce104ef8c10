-- ===== src/Agreement/Spans.antt =====
-- The spans of a trace file: `parse_spans` of results/generate_figures.py against `parse_trace` of
-- testbed/analyze.py.
use autonat_project.Base.{
  String, ◌≡◌, refl, Option, some, List, [], ◌∷◌, ◌>>=◌, Bool-cases, Option-cases, inl, inr,
}
use autonat_project.Base.Always.{Always, Always-bind, Always-some}
use autonat_project.Base.Dict.{lookup}
use autonat_project.Base.Text.{strip, is_empty}
use autonat_project.Json.{Json, null, list, nil, field?, default, iterate, Python}
use autonat_project.Trace.Attrs.{Span, event_of, span_of, rounds, traverse}
use autonat_project.Trace.Parse.{decode_line}
use autonat_project.Trace.Views.{is_hashable, with_name, spans_of, prepend}
use autonat_project.Figures.{
  FigureSpan, fields_of, parse_list, figure_attrs, figure_span, parse_spans,
}
use autonat_project.Agreement.Values.{SameLookup}
use autonat_project.Agreement.Attributes.{fields_of-dict, listed_of, figure_attrs-flatten_attrs}

module _ (py : Python) (to_float : Json → Option Json)
    (no_list : (v w : Json) → to_float v ≡ some w → parse_list py to_float w ≡ [])
    (j : String) where
  -- One span under the same name, and with the same list under a key.
  abbrev pub SameSpan : FigureSpan → Span → Type 0
  SameSpan f s = (s.name ≡ f.name) × SameLookup py to_float (lookup j f.attrs) (lookup j s.attrs)

  figure_span-span_of :
      (v : Json) → Always (λ f. Always (SameSpan f) (span_of v)) (figure_span py to_float v)
  unfolding figure_span span_of
  figure_span-span_of v = Always-bind _ (fields_of v) _ (λ fs ef.
      Always-bind _ (iterate (listed_of (default (list nil) (field? "Attributes" fs)))) _ (λ vs ev.
        Always-bind _ (figure_attrs py to_float vs []) _ (λ attrs ea.
          Always-bind _ (field? "Name" fs) _ (λ name en.
            Always-some _ (record { name = name; attrs = attrs })
              (let (e, read, known) =
                  figure_attrs-flatten_attrs py to_float no_list j
                    (default (list nil) (field? "Attributes" fs)) vs attrs ev ea in
                rw (fields_of-dict v fs ef, read, en)
                  (Always-bind _ (rounds (default null (field? "Events" fs))) _ (λ raw er.
                    Always-bind _ (traverse event_of raw) _
                      (λ events ee. Always-some _ _ (refl, known)))))))))

  -- The spans of two lists in turn.
  abbrev pub SameSpans : List FigureSpan → List Span → Type 0
  SameSpans [] [] = Unit
  SameSpans (f ∷ fs) (s ∷ ss) = SameSpan f s × SameSpans fs ss
  SameSpans fs ss = ⊥

  line_spans :
      (v : Json) (o : Option (List FigureSpan)) (p : Option (List Span))
      → Always (λ fs. Always (SameSpans fs) p) o
      → Always
          (λ fs. Always (SameSpans fs) (do
            found ← (do s ← span_of v; some (some s))
            o ← with_name found
            ss ← p
            some (prepend o ss)))
          (do f ← figure_span py to_float v; fs ← o; some (f ∷ fs))
  unfolding with_name
  line_spans v o p rest = Always-bind _ (figure_span py to_float v) _ (λ f ef.
      Always-bind _ o _ (λ fs efs. Always-some _ (f ∷ fs) (elim (Option-cases (span_of v)) [
        | inl e ↦ rw e (λ ss h. absurd (cc h))
        | inr (s, e) ↦ rw e (elim (Bool-cases (is_hashable s.name)) [
          | inr b ↦ rw b (λ ss h. absurd (cc h))
          | inl b ↦ rw b (
              Always-bind _ p _ (λ ss ess.
                Always-some _ (s ∷ ss) (figure_span-span_of v f ef s e, rest fs efs ss ess)))
        ])
      ])))

  pub parse_spans-spans_of :
      (lines : List String)
      → Always (λ fs. Always (SameSpans fs) (spans_of py lines)) (parse_spans py to_float lines)
  unfolding parse_spans spans_of decode_line with_name
  parse_spans-spans_of [] = Always-some _ [] (Always-some _ [] tt)
  parse_spans-spans_of (line ∷ lines) = elim (Bool-cases (is_empty (strip line))) [
    | inl b ↦ rw b (λ fs h.
        Always-bind _ (spans_of py lines) _
          (λ ss g. Always-some _ ss (parse_spans-spans_of lines fs h ss g)))
    | inr b ↦ rw b (
        Always-bind _ (py.loads (strip line)) _ (λ v ev. rw ev (
          line_spans v (parse_spans py to_float lines) (spans_of py lines)
            (parse_spans-spans_of lines))))
  ]
