-- ===== src/Tests/Traces.antt =====
-- `parse_trace` on the small trace file.
use autonat_project.Base.{◌≡◌, refl, some, ◌>>=◌}
use autonat_project.Base.Dict.{lookup, insert}
use autonat_project.Json.{Json, str, list, dict, nil, cons, end, field, field?}
use autonat_project.Trace.Attrs.{flatten_attrs}
use autonat_project.Trace.Parse.{parse_trace}
use autonat_project.Trace.Views.{spans_of, trace_of, parse_trace_lem}
use autonat_project.Tests.Fixtures.{python, lines}

parse_trace_lem_example :
    parse_trace python lines ≡ (do ss ← spans_of python lines; some (trace_of ss))
parse_trace_lem_example = parse_trace_lem python lines

-- The same key twice.
abbrev twice : Json
twice = list (
    cons (dict (field "Key" (str "a") (field "Value" (str "1") end)))
      (cons (dict (field "Key" (str "a") (field "Value" (str "2") end))) nil))

last_value_runs : (do out ← flatten_attrs twice; some (lookup "a" out)) ≡ some (some (str "2"))
unfolding flatten_attrs field? lookup insert
last_value_runs = refl
