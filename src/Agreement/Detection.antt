-- ===== src/Agreement/Detection.antt =====
-- The detection by version 2: the summary figure of results/generate_figures.py against the metrics
-- of testbed/analyze.py.
use autonat_project.Base.{
  String, ◌≡◌, refl, sym, ◌∙◌, Bool, true, false, not, ◌&&◌, Option, none, some, List, [], ◌∷◌, any,
  length, ltb, map, keep, last?, inl, inr, arith,
}
use autonat_project.Base.Always.{Always-bind, Always-some}
use autonat_project.Base.Dict.{lookup}
use autonat_project.Json.{Json, str, list, nil, default, is_text, Python}
use autonat_project.Trace.Attrs.{Span}
use autonat_project.Trace.Parse.{Trace, as_event, parse_trace, activity}
use autonat_project.Trace.Views.{spans_of, trace_of, parse_trace_lem, is_text_one, named, is_event}
use autonat_project.Metrics.Events.{any_public, any_reachable, lists_some, list_attr, list_value}
use autonat_project.Metrics.Rates.{is_fn, is_fp}
use autonat_project.Figures.{
  FigureSpan, Reachability, AddrCounts, parse_list, parse_spans, get_convergence, addr_counts,
  begins_list, decoded_list,
}
use autonat_project.Figures.Rates.{read_file, v2_detected}
use autonat_project.Agreement.Values.{parse_list-list_value, SameLookup}
use autonat_project.Agreement.Reports.{is_report}
use autonat_project.Agreement.Spans.{SameSpan, SameSpans, parse_spans-spans_of}
use autonat_project.Agreement.Laws.{session-report, own-reports}

module _ (py : Python) (to_float : Json → Option Json) where
  abbrev counts_some : FigureSpan → Bool
  counts_some f =
      is_text "reachable_addrs_changed" f.name && ltb 0 (addr_counts py to_float f).reachable

  v2_detected-any :
      (fs : List FigureSpan)
      → v2_detected (get_convergence py to_float fs).1 ≡ some true
      → any counts_some fs ≡ true
  unfolding v2_detected get_convergence any
  v2_detected-any [] h = absurd (cc h)
  v2_detected-any (f ∷ fs) h = ground (
    arith,
    v2_detected-any fs,
    is_text_one "reachability_changed" "reachable_addrs_changed" f.name refl,
  )

  module _ (no_list : (v w : Json) → to_float v ≡ some w → parse_list py to_float w ≡ [])
      (reads_empty : py.loads "[]" ≡ some (list nil)) where
    some_listed :
        (o p : Option Json)
        → SameLookup py to_float o p
        → ltb 0 (length (parse_list py to_float (default (str "[]") o))) ≡ true
        → ltb 0 (length (list_value py (default (list nil) p))) ≡ true
    unfolding parse_list begins_list decoded_list
    some_listed none p same h = absurd (cc (h, reads_empty))
    some_listed (some v) p (inl e) h = rw (e, sym (parse_list-list_value py to_float v)) h
    some_listed (some v) p (inr e) h = absurd (cc (h, e))

    counts_some-is_report :
        (f : FigureSpan) (s : Span)
        → SameSpan py to_float no_list "reachable" f s
        → counts_some f ≡ true
        → is_report py "reachable_addrs_changed" "reachable" (as_event s) ≡ true
    unfolding addr_counts lists_some list_attr
    counts_some-is_report f s (same, known) h = rw (same) (
        ground (arith, some_listed (lookup "reachable" f.attrs) (lookup "reachable" s.attrs) known))

    any-reports :
        (fs : List FigureSpan) (ss : List Span)
        → SameSpans py to_float no_list "reachable" fs ss
        → any counts_some fs ≡ true
        → any (λ s. is_report py "reachable_addrs_changed" "reachable" (as_event s)) ss ≡ true
    unfolding any
    any-reports [] [] same h = h
    any-reports (f ∷ fs) [] same h = absurd same
    any-reports [] (s ∷ ss) same h = absurd same
    any-reports (f ∷ fs) (s ∷ ss) (same, rest) h =
        ground (arith, counts_some-is_report f s same, any-reports fs ss rest)

    reachable_trace :
        (ss : List Span)
        → any (λ s. is_report py "reachable_addrs_changed" "reachable" (as_event s)) ss ≡ true
        → any_reachable py (trace_of ss) ≡ true
    unfolding any_reachable
    reachable_trace ss h =
        session-report py "reachable_addrs_changed" "reachable" (trace_of ss)
          (last? (map activity (keep (named "autonat.session") ss)))
          (map as_event (keep is_event ss)) refl
        ∙ rw
            (
              own-reports py "reachable_addrs_changed" "reachable" ss (inr (inr (inr (inl refl)))),
              h,
            )
            (ground arith)

    reachable_read :
        (fs : List FigureSpan) (ss : List Span)
        → SameSpans py to_float no_list "reachable" fs ss
        → v2_detected (get_convergence py to_float fs).1 ≡ some true
        → any_reachable py (trace_of ss) ≡ true
    reachable_read fs ss same h = reachable_trace ss (any-reports fs ss same (v2_detected-any fs h))

-- Take a trace file that the figures read and that `parse_trace` can read, where `json.loads("[]")`
-- is the empty list and what `float` returns holds no list. If the summary figure takes the file as
-- one in which version 2 detected the node as reachable, then for `analyze.py` an event of its trace
-- lists an address as reachable: the trace is no false negative, and it is a false positive exactly
-- when no probe says "public".
pub v2_detected-is_fn :
    (py : Python) (to_float : Json → Option Json) (lines : List String) (v1 : List Reachability)
    (v2 : List AddrCounts) (t : Trace)
    → ((v w : Json) → to_float v ≡ some w → parse_list py to_float w ≡ [])
    → py.loads "[]" ≡ some (list nil)
    → read_file py to_float lines ≡ some (v1, v2)
    → parse_trace py lines ≡ some t
    → v2_detected v2 ≡ some true
    → (any_reachable py t ≡ true) × (is_fn py t ≡ false) × (is_fp py t ≡ not (any_public t))
unfolding is_fn is_fp
v2_detected-is_fn py to_float lines v1 v2 t no_list reads_empty figures analysis detected =
    let shown =
      Always-bind (λ v. v2_detected v.1 ≡ some true → any_reachable py t ≡ true)
        (parse_spans py to_float lines) _
        (λ fs ef. Always-some _ _ (λ h.
          Always-bind (λ u. any_reachable py u ≡ true) (spans_of py lines) _
            (λ ss es. Always-some _ (trace_of ss) (
              reachable_read py to_float no_list reads_empty fs ss
                (parse_spans-spans_of py to_float no_list "reachable" lines fs ef ss es) h))
            t (sym (parse_trace_lem py lines) ∙ analysis)))
        (v1, v2) figures detected in
    (shown, rw shown (ground arith), rw shown (ground arith))
