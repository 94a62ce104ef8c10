-- ===== src/Runner/Evaluation.antt =====
-- `run_assertions` of testbed/run.py, which runs testbed/eval-assertions.py as a program.
pub mod Laws
use autonat_project.Base.{
  ℕ, ◌+◌, String, ◌<>◌, Bool, true, false, not, Option, none, some, List, [], ◌∷◌, map,
  if◌then◌else◌, ◌>>=◌, ◌==◌,
}
use autonat_project.Base.Dict.{Dict}
use autonat_project.Json.{
  Json, Fields, Python, bool, str, list, dict, end, field, items, field?, iterate, truthy, default,
}
use autonat_project.Assertions.Evaluate.{as_fields}
use autonat_project.Assertions.Program.{eval_main}
use autonat_project.Scenario.Defs.{Assertion}

-- `{k: v for k, v in d.items() if v}`
unfoldable pub truthy_fields : Dict Json → Fields
truthy_fields [] = end
truthy_fields ((k, v) ∷ d) = let rest = truthy_fields d in if truthy v then field k v rest else rest

-- `a.__dict__`
abbrev pub attributes : Assertion → Dict Json
attributes a =
    ("type", str a.type)
    ∷ ("event", str a.event)
    ∷ ("filter", dict (as_fields a.filter))
    ∷ ("message", str a.message)
    ∷ ("extract", str a.extract)
    ∷ ("select", str a.select)
    ∷ ("label", str a.label)
    ∷ []

-- The dict that is sent for an assertion.
unfoldable pub sent : Assertion → Json
unfolding truthy_fields
sent a = dict (truthy_fields (attributes a))

-- The loop over the results: `none` is an exception, also of `r['status']`.
unfoldable pub count_failures : List Json → Option ℕ
count_failures [] = some 0
count_failures (dict fs ∷ results) = do
  shown ← field? "status" fs
  n ← count_failures results
  some (if truthy (default (bool true) (field? "pass" fs)) then n else n + 1)
count_failures (_ ∷ results) = none

module _ (py : Python) (pretty : Json → String) where
  -- What is made of the program's output.
  unfoldable pub read_results : Option String → Option (List Json × ℕ)
  unfolding count_failures
  read_results none = some ([], 0)
  read_results (some stdout) = elim (py.loads stdout) [
    | none ↦ some ([], 0)
    | some v ↦ (do
      results ← iterate v
      fail_count ← count_failures results
      some (results, fail_count))
  ]

  -- `has_script` is `os.path.exists(eval_script)`, and `lines` those of the trace file.
  unfoldable pub run_assertions : Bool → List Assertion → List String → Option (List Json × ℕ)
  unfolding read_results sent
  run_assertions has_script assertions lines =
      let stdin = py.dumps (list (items (map sent assertions))) in
      if has_script then read_results (eval_main py pretty stdin lines) else some ([], 0)
