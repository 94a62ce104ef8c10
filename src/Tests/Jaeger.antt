-- ===== src/Tests/Jaeger.antt =====
-- A Jaeger answer with one span, and its export.
use autonat_project.Base.{◌≡◌, refl, some, List, [], ◌∷◌, map}
use autonat_project.Base.Dict.{insert}
use autonat_project.Json.{Json, str, list, dict, nil, cons, end, field, iterate, truthy, field?}
use autonat_project.Trace.Attrs.{traverse, span_of}
use autonat_project.Runner.Jaeger.{JaegerSpan, export_trace_jsonl}
use autonat_project.Runner.Jaeger.Laws.{read_span}
use autonat_project.Runner.Jaeger.Find.{find_spans, get, text?, fields_of}
use autonat_project.Runner.Jaeger.Find.Laws.{find_spans-export_trace_jsonl}
use autonat_project.Tests.Fixtures.{python}

abbrev answer : Json
answer = dict (
    field "resourceSpans"
      (list (
        cons
          (dict (
            field "scopeSpans" (list (cons (dict (field "spans" (list (cons span nil)) end)) nil))
              end))
          nil))
      end)
  where
    span : Json
    span = dict (
        field "name" (str "reachability_changed") (
          field "traceId" (str "t1") (
            field "attributes"
              (list (
                cons
                  (dict (
                    field "key" (str "elapsed_ms")
                      (field "value" (dict (field "intValue" (str "6012") end)) end)))
                  nil))
              end)))

-- Jaeger gives integers as texts, and the export makes them integers again.
abbrev found : List JaegerSpan
found =
    record {
      name = str "reachability_changed";
      trace_id = str "t1";
      start_ns = str "0";
      attrs = ("elapsed_ms", str "6012") ∷ [];
      events = [];
    }
    ∷ []

found_run : find_spans python (some answer) ≡ some found
unfolding find_spans truthy iterate traverse get field? text? fields_of insert
found_run = refl

find_spans-export_trace_jsonl_example :
    traverse span_of (export_trace_jsonl python found) ≡ some (map (read_span python) found)
find_spans-export_trace_jsonl_example =
    find_spans-export_trace_jsonl python (some answer) found found_run
