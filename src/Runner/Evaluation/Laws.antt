-- ===== src/Runner/Evaluation/Laws.antt =====
-- `run_assertions` against `evaluate`: what the two programs do together.
use autonat_project.Base.{
  String, ◌<>◌, ◌≡◌, refl, ◌∙◌, ap, true, false, not, Option, none, some, List, [], ◌∷◌, map, All,
  count, arith, if◌then◌else◌, ◌>>=◌, ◌==◌, eq_iff, Bool-cases, inl, inr,
}
use mathlib.Core.Path.{subst}
use autonat_project.Base.Dict.{Dict, lookup}
use autonat_project.Runner.Jaeger.Laws.{IsDict}
use autonat_project.Json.{
  Json, Fields, Python, str, list, dict, items, elements, field?, iterate, truthy,
}
use autonat_project.Trace.Attrs.{traverse}
use autonat_project.Assertions.Load.{Flat, load_events}
use autonat_project.Assertions.Evaluate.{
  Verdict, checked, info, unknown, as_fields, passes, evaluate,
}
use autonat_project.Assertions.Evaluate
use autonat_project.Assertions.Program.{
  text_field, dict_of, filter_field, label_field, received, verdict_json, eval_main,
}
use autonat_project.Scenario.Defs.{Assertion}
use autonat_project.Runner.Evaluation.{
  truthy_fields, attributes, sent, count_failures, run_assertions,
}

-- An assertion as the program sees it: an empty "select" counts as "first", and an empty label as none.
abbrev pub as_evaluated : Assertion → Evaluate.Assertion
as_evaluated a = record {
  type = a.type;
  event = a.event;
  filter = a.filter;
  message = a.message;
  extract = a.extract;
  select = if a.select == "" then "first" else a.select;
  label = if a.label == "" then none else some a.label;
}

dict_of-as_fields : (d : Dict Json) → dict_of (as_fields d) ≡ d
unfolding dict_of
dict_of-as_fields [] = refl
dict_of-as_fields ((k, v) ∷ d) = ap (λ e. (k, v) ∷ e) (dict_of-as_fields d)

abbrev given_or_none : Json → Option Json
given_or_none v = if truthy v then some v else none

field?-truthy_fields :
    (k : String) (d : Dict Json)
    → IsDict d
    → field? k (truthy_fields d) ≡ (lookup k d >>= given_or_none)
unfolding field? truthy_fields lookup
field?-truthy_fields k [] h = refl
field?-truthy_fields k ((j, v) ∷ d) (h, hs) = elim (Bool-cases (j == k)) [
  | inl e ↦ elim (Bool-cases (truthy v)) [
    | inl f ↦ rw (f, field?-truthy_fields k d hs, same e, e, f) refl
    | inr f ↦ rw (f, field?-truthy_fields k d hs, same e, e, f) refl
  ]
  | inr e ↦ elim (Bool-cases (truthy v)) [
    | inl f ↦ rw (f, e, field?-truthy_fields k d hs, ◌>>=◌) (ground arith)
    | inr f ↦ rw (f, e) (field?-truthy_fields k d hs)
  ]
]
  where
    same : (j == k) ≡ true → lookup k d ≡ none
    same e = subst (λ (x : String). lookup x d ≡ none) ((eq_iff j k).0 e) h

text_field-given :
    (k otherwise s : String) (fs : Fields)
    → field? k fs ≡ given_or_none (str s)
    → text_field k otherwise fs ≡ some (if s == "" then otherwise else s)
unfolding text_field truthy
text_field-given k otherwise s fs h = rw (text_field, h) (ground arith)

-- A text that is read as empty when it was left out.
text_field-empty :
    (k s : String) (fs : Fields) → field? k fs ≡ given_or_none (str s) → text_field k "" fs ≡ some s
text_field-empty k s fs h = text_field-given k "" s fs h ∙ ground (arith, eq_iff s "")

label_field-given :
    (s : String) (fs : Fields)
    → field? "label" fs ≡ given_or_none (str s)
    → label_field fs ≡ some (if s == "" then none else some s)
unfolding label_field truthy
label_field-given s fs h = rw (label_field, h) (ground arith)

filter_field-given :
    (d : Dict Json) (fs : Fields)
    → field? "filter" fs ≡ given_or_none (dict (as_fields d))
    → filter_field fs ≡ some d
unfolding filter_field truthy dict_of
filter_field-given [] fs h = rw (filter_field, h) refl
filter_field-given ((k, v) ∷ d) fs h =
    rw (filter_field, h) (ap some (dict_of-as_fields ((k, v) ∷ d)))

typed_text :
    (s : String) {o : Option Json}
    → (s == "") ≡ false
    → o ≡ given_or_none (str s)
    → o ≡ some (str s)
unfolding truthy
typed_text s h e = ground arith

received-sent : (a : Assertion) → (a.type == "") ≡ false → received (sent a) ≡ some (as_evaluated a)
unfolding received sent lookup
received-sent a h =
    let fs = truthy_fields (attributes a) in
    let distinct : IsDict (attributes a) =
      (refl, (refl, (refl, (refl, (refl, (refl, (refl, tt))))))) in
    let given = λ (k : String). field?-truthy_fields k (attributes a) distinct in
    rw
      (
        typed_text a.type h (given "type"),
        text_field-empty "event" a.event fs (given "event"),
        filter_field-given a.filter fs (given "filter"),
        text_field-empty "message" a.message fs (given "message"),
        text_field-empty "extract" a.extract fs (given "extract"),
        text_field-given "select" "first" a.select fs (given "select"),
        label_field-given a.label fs (given "label"),
      )
      refl

elements-items : (vs : List Json) → elements (items vs) ≡ vs
elements-items [] = refl
elements-items (v ∷ vs) = ap (λ ws. v ∷ ws) (elements-items vs)

-- The types of the assertions are given.
abbrev pub IsTyped : List Assertion → Type 0
IsTyped assertions = All (λ (a : Assertion). (a.type == "") ≡ false) assertions

judged :
    (py : Python) (events : List Flat) (as' : List Assertion)
    → IsTyped as'
    → traverse (λ v. received v >>= λ a. evaluate py a events) (map sent as')
      ≡ traverse (λ a. evaluate py (as_evaluated a) events) as'
unfolding traverse
judged py events [] h = refl
judged py events (a ∷ as') (h, hs) = rw (received-sent a h, judged py events as' hs) refl

count_failures-verdicts :
    (vs : List Verdict)
    → count_failures (map verdict_json vs) ≡ some (count (λ v. not (passes v)) vs)
unfolding count_failures verdict_json field? truthy count
count_failures-verdicts [] = refl
count_failures-verdicts (checked type ok message n ∷ vs) =
    ground (arith, count_failures-verdicts vs)
count_failures-verdicts (info label v ∷ vs) = ground (arith, count_failures-verdicts vs)
count_failures-verdicts (unknown type ∷ vs) = ground (arith, count_failures-verdicts vs)

module _ (py : Python) (pretty : Json → String) where
  -- The JSON list of these values is read back as it was written.
  abbrev pub IsSent : List Json → Type 0
  IsSent vs = py.loads (py.dumps (list (items vs))) ≡ some (list (items vs))

  abbrev pub IsPrinted : List Json → Type 0
  IsPrinted vs = py.loads (pretty (list (items vs)) <> "\n") ≡ some (list (items vs))

  -- When the trace can be loaded and each assertion evaluated, `run_assertions` returns the result
  -- of `evaluate` for each assertion in turn, and the number of those that do not pass. The two
  -- lists of JSON values that the programs exchange are to be read back as they were written.
  pub run_assertions_lem :
      (assertions : List Assertion) (lines : List String) (events : List Flat)
      (verdicts : List Verdict)
      → IsTyped assertions
      → IsSent (map sent assertions)
      → IsPrinted (map verdict_json verdicts)
      → load_events py lines ≡ some events
      → traverse (λ a. evaluate py (as_evaluated a) events) assertions ≡ some verdicts
      → run_assertions py pretty true assertions lines
        ≡ some (map verdict_json verdicts, count (λ v. not (passes v)) verdicts)
  unfolding run_assertions eval_main iterate
  run_assertions_lem assertions lines events verdicts typed is_sent is_printed loaded result =
      rw
        (
          is_sent,
          elements-items,
          loaded,
          judged py events assertions typed,
          result,
          is_printed,
          elements-items,
          count_failures-verdicts,
        )
        refl
