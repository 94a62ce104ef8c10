-- ===== src/Runner/Query.antt =====
-- The query of `Jaeger.find_spans` of testbed/run.py, and the URL that `_get` opens. The clock and the
-- HTTP request are parameters; a time is given by its text.
use Prim.Native.Char.{Char, code}
use autonat_project.Base.{String, ◌<>◌, Option, none, some, List, eqb, if◌then◌else◌, ◌≡◌, refl}
use autonat_project.Json.{Python}
use autonat_project.Runner.Jaeger.{JaegerSpan}
use autonat_project.Runner.Jaeger.Find.{find_spans}

rstrip_onto : Char → String → String
rstrip_onto c String.[] = if eqb (code c) b'/' then String.[] else String.◌∷◌ c String.[]
rstrip_onto c (String.◌∷◌ d s) = String.◌∷◌ c (String.◌∷◌ d s)

-- `s.rstrip("/")`
unfoldable pub rstrip_slash : String → String
unfolding rstrip_onto
rstrip_slash String.[] = String.[]
rstrip_slash (String.◌∷◌ c s) = rstrip_onto c (rstrip_slash s)

-- `Jaeger.__init__`
pub record Jaeger : Type 0 where
  pub base_url : String
  pub service : String

unfoldable pub new_jaeger : String → String → Jaeger
unfolding rstrip_slash
new_jaeger base_url service = record { base_url = rstrip_slash base_url; service = service }

abbrev pub jaeger_url : String
jaeger_url = "http://localhost:16686"

abbrev pub jaeger_service : String
jaeger_service = "autonat-testbed"

-- The texts of the present time and of the one an hour before.
pub record Times : Type 0 where
  pub now : String
  pub hour_ago : String

-- Without a start time the last hour is searched.
unfoldable pub query_params : Jaeger → Times → Option String → String
query_params jaeger times start_time =
    let service = "query.service_name=" <> jaeger.service <> "&query.search_depth=1000" in
    let since = λ (start : String).
      service <> "&query.start_time_min=" <> start <> "&query.start_time_max=" <> times.now in
    elim start_time [ some ts ↦ since ts | none ↦ since times.hour_ago ]

unfoldable pub query_url : Jaeger → Times → Option String → String
unfolding query_params
query_url jaeger times start_time =
    jaeger.base_url <> "/api/v3/traces?" <> query_params jaeger times start_time

-- The call of `find_spans`. `http` is what the server answers with, if it answers in time; an answer
-- that is no JSON counts as none.
unfoldable pub spans_since :
    Python → (String → Option String) → Jaeger → Times → Option String → Option (List JaegerSpan)
unfolding query_url
spans_since py http jaeger times start_time =
    find_spans py
      (elim (http (query_url jaeger times start_time)) [ none ↦ none | some body ↦ py.loads body ])

query_run :
    query_url
      (new_jaeger "http://localhost:16686//" "s")
      (record { now = "B"; hour_ago = "A" })
      none
    ≡ "http://localhost:16686/api/v3/traces?query.service_name=s&query.search_depth=1000&query.start_time_min=A&query.start_time_max=B"
unfolding query_url new_jaeger
query_run = refl
