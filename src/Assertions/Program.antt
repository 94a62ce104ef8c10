-- ===== src/Assertions/Program.antt =====
-- `main` of testbed/eval-assertions.py: a JSON list of assertions is read, and their results are
-- printed. `none` is an exception, with which the program exits with a code that is not 0.
use autonat_project.Base.{String, ◌<>◌, true, false, Option, none, some, List, map, ◌>>=◌}
use autonat_project.Base.Int.{pos}
use autonat_project.Base.Dict.{Dict}
use autonat_project.Json.{
  Json, Fields, Python, bool, int, str, list, dict, end, field, items, field?, iterate,
}
use autonat_project.Trace.Attrs.{traverse}
use autonat_project.Assertions.Load.{load_events}
use autonat_project.Assertions.Evaluate.{
  Assertion, Verdict, checked, info, unknown, status, evaluate,
}

-- The values that `evaluate` takes from an assertion. A value of another kind than its field's
-- counts as an exception.
unfoldable pub text_field : String → String → Fields → Option String
text_field k otherwise fs = elim (field? k fs) [
  | none ↦ some otherwise
  | some (str s) ↦ some s
  | some _ ↦ none
]

unfoldable pub dict_of : Fields → Dict Json
dict_of end = List.[]
dict_of (field k v fs) = List.◌∷◌ (k, v) (dict_of fs)

unfoldable pub filter_field : Fields → Option (Dict Json)
unfolding dict_of
filter_field fs = elim (field? "filter" fs) [
  | none ↦ some List.[]
  | some (dict conditions) ↦ some (dict_of conditions)
  | some _ ↦ none
]

unfoldable pub label_field : Fields → Option (Option String)
label_field fs = elim (field? "label" fs) [
  | none ↦ some none
  | some (str s) ↦ some (some s)
  | some _ ↦ none
]

-- `assertion["type"]`, and `.get` for the other keys.
unfoldable pub received : Json → Option Assertion
unfolding text_field filter_field label_field
received (dict fs) = do
  given ← field? "type" fs
  type ← (elim given [ str s ↦ some s | _ ↦ none ])
  event ← text_field "event" "" fs
  filter ← filter_field fs
  message ← text_field "message" "" fs
  extract ← text_field "extract" "" fs
  select ← text_field "select" "first" fs
  label ← label_field fs
  some (record {
    type = type;
    event = event;
    filter = filter;
    message = message;
    extract = extract;
    select = select;
    label = label;
  })
received _ = none

-- The dict of a result, as JSON.
unfoldable pub verdict_json : Verdict → Json
verdict_json (checked type ok message n) = dict (
    field "type" (str type) (
      field "pass" (bool ok) (
        field "status" (str (status (checked type ok message n)))
          (field "message" (str message) (field "matched_count" (int (pos n)) end)))))
verdict_json (info label value) = dict (
    field "type" (str "info") (
      field "pass" (bool true)
        (field "status" (str "INFO") (field "label" (str label) (field "value" value end)))))
verdict_json (unknown type) = dict (
    field "type" (str type) (
      field "pass" (bool false)
        (field "status" (str "ERROR") (field "message" (str ("unknown type: " <> type)) end))))

-- `pretty` is `json.dumps(v, indent=2)`.
module _ (py : Python) (pretty : Json → String) where
  -- The output for a text on standard input and a trace file with these lines.
  unfoldable pub eval_main : String → List String → Option String
  unfolding verdict_json received
  eval_main stdin lines = do
    given ← py.loads stdin
    assertions ← iterate given
    events ← load_events py lines
    verdicts ← traverse (λ v. received v >>= λ a. evaluate py a events) assertions
    some (pretty (list (items (map verdict_json verdicts))) <> "\n")
