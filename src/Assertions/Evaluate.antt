-- ===== src/Assertions/Evaluate.antt =====
-- `matches` and `evaluate` of testbed/eval-assertions.py. `none` is an exception.
use autonat_project.Base.{
  ℕ, String, Bool, true, false, not, Option, none, some, List, [], ◌∷◌, ◌==◌, if◌then◌else◌, ◌>>=◌,
  length, last?, ltb, eqb,
}
use text.Mathlib.Text.{find?}
use autonat_project.Base.Dict.{Dict, lookup}
use autonat_project.Json.{
  Json, null, str, list, dict, nil, Fields, end, field, default, is_text, Python,
}
use autonat_project.Metrics.Events.{list_value}
use autonat_project.Assertions.Load.{Flat}

-- A flat event as a value.
abbrev pub as_fields : Flat → Fields
as_fields [] = end
as_fields ((k, v) ∷ flat) = field k v (as_fields flat)

-- `val in text`; a value that is no text is a TypeError.
unfoldable pub is_in : Json → String → Option Bool
is_in (str s) text = elim (find? text s) [ some i ↦ some true | none ↦ some false ]
is_in _ text = none

-- `event.get(val, [])`: an unhashable key is a TypeError, and no event has a key that is no text.
unfoldable pub field_value : Flat → Json → Option Json
field_value e (str k) = some (default (list nil) (lookup k e))
field_value e (list vs) = none
field_value e (dict fs) = none
field_value e _ = some (list nil)

pub record Assertion : Type 0 where
  pub type : String
  pub event : String
  pub filter : Dict Json
  pub message : String
  pub extract : String
  pub select : String
  pub label : Option String

-- `assertion.get("label", message)`
abbrev pub label_of : Option String → String → String
label_of none message = message
label_of (some label) message = label

-- The dict that `evaluate` returns.
pub data Verdict : Type 0 where
  checked : String → Bool → String → ℕ → Verdict
  info : String → Json → Verdict
  unknown : String → Verdict

-- "pass"
abbrev pub passes : Verdict → Bool
passes (checked type ok message n) = ok
passes (info label value) = true
passes (unknown type) = false

-- "status"
abbrev pub status : Verdict → String
status (checked type ok message n) = if ok then "PASS" else "FAIL"
status (info label value) = "INFO"
status (unknown type) = "ERROR"

-- The value that an "info" assertion extracts.
unfoldable pub extracted : String → String → List Flat → Json
extracted select key [] = null
extracted select key (e ∷ es) =
    if select == "first"
    then default null (lookup key e)
    else elim (last? (e ∷ es)) [ some last ↦ default null (lookup key last) | none ↦ null ]

-- The branches of `evaluate` on the assertion's type.
unfoldable pub verdict : Assertion → List Flat → Verdict
unfolding extracted
verdict a found =
    if a.type == "no_event"
    then checked a.type (eqb (length found) 0) a.message (length found)
    else if a.type == "has_event"
    then checked a.type (ltb 0 (length found)) a.message (length found)
    else if a.type == "info"
    then info (label_of a.label a.message) (extracted a.select a.extract found)
    else unknown a.type

module _ (py : Python) where
  -- `_as_list`
  abbrev pub as_list : Json → List Json
  as_list = list_value py

  -- The test of one filter: whether the loop goes on.
  unfoldable pub holds : Flat → String → Json → Option Bool
  unfolding is_in field_value
  holds e key val =
      if key == "address_contains"
      then is_in val (py.dumps (default (str "") (lookup "addresses" e)))
      else if key == "message_contains"
      then is_in val (py.dumps (dict (as_fields e)))
      else if key == "reachability"
      then some (py.equal (default null (lookup "reachability" e)) val)
      else if key == "not_empty"
      then (do v ← field_value e val; some (not (eqb (length (as_list v)) 0)))
      else if key == "is_empty"
      then (do v ← field_value e val; some (not (ltb 0 (length (as_list v)))))
      else some (py.to_str (default (str "") (lookup key e)) == py.to_str val)

  unfoldable pub all_hold : Flat → Dict Json → Option Bool
  all_hold e [] = some true
  all_hold e ((key, val) ∷ filters) = elim (holds e key val) [
    | none ↦ none
    | some false ↦ some false
    | some true ↦ all_hold e filters
  ]

  unfoldable pub matches : Flat → String → Dict Json → Option Bool
  unfolding all_hold holds
  matches e event_type filters =
      if is_text event_type (default (str "") (lookup "type" e))
      then all_hold e filters
      else some false

  -- `[e for e in events if matches(e, event_type, filters)]`
  unfoldable pub matched : String → Dict Json → List Flat → Option (List Flat)
  unfolding matches
  matched event_type filters [] = some []
  matched event_type filters (e ∷ events) = do
    b ← matches e event_type filters
    rest ← matched event_type filters events
    some (if b then e ∷ rest else rest)

  unfoldable pub evaluate : Assertion → List Flat → Option Verdict
  unfolding matched verdict
  evaluate a events = do found ← matched a.event a.filter events; some (verdict a found)
