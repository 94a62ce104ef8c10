-- ===== src/Agreement/Filters.antt =====
-- The filter "not_empty" of testbed/eval-assertions.py on the events of a span.
use autonat_project.Base.{
  String, ◌≡◌, refl, ap, Bool, false, ◌&&◌, none, some, List, [], ◌∷◌, ◌==◌, ◌>>=◌, keep, any,
  length, ltb, arith, Option-cases, Bool-cases, inl, inr,
}
use autonat_project.Base.Dict.{lookup, lookup-insert}
use autonat_project.Json.{Json, str, list, nil, default, is_text, Python, coerce_int}
use autonat_project.Trace.Attrs.{Attrs}
use autonat_project.Metrics.Events.{list_value}
use autonat_project.Assertions.Load.{Flat, mark, with_int_time}
use autonat_project.Assertions.Evaluate.{
  Assertion, passes, matches, matched, all_hold, holds, field_value, evaluate, verdict,
}
use autonat_project.Agreement.Lists.{keep-any}

-- A key that `load_events` does not write itself.
abbrev pub IsData : String → Type 0
IsData k =
    (("type" == k) ≡ false)
    × (("_span_name" == k) ≡ false)
    × (("_time" == k) ≡ false)
    × (("elapsed_ms" == k) ≡ false)

-- An assertion that an event with a list that is not empty has occurred.
abbrev pub not_empty : String → String → Assertion
not_empty n k = record {
  type = "has_event";
  event = n;
  filter = ("not_empty", str k) ∷ [];
  message = "";
  extract = "";
  select = "";
  label = none;
}

module _ (py : Python) (n k : String) where
  -- What the assertion looks for.
  abbrev pub is_wanted : Flat → Bool
  is_wanted e =
      is_text n (default (str "") (lookup "type" e))
      && ltb 0 (length (list_value py (default (list nil) (lookup k e))))

  matches-is_wanted : (e : Flat) → matches py e n (("not_empty", str k) ∷ []) ≡ some (is_wanted e)
  unfolding matches all_hold holds field_value
  matches-is_wanted e = elim (Bool-cases (is_text n (default (str "") (lookup "type" e)))) [
    | inr b ↦ rw b refl
    | inl b ↦ rw b (ground arith)
  ]

  matched-is_wanted :
      (es : List Flat) → matched py n (("not_empty", str k) ∷ []) es ≡ some (keep is_wanted es)
  unfolding matched keep
  matched-is_wanted [] = refl
  matched-is_wanted (e ∷ es) = rw (matches-is_wanted e, matched-is_wanted es) (ground arith)

  pub evaluate-is_wanted :
      (es : List Flat)
      → (do v ← evaluate py (not_empty n k) es; some (passes v)) ≡ some (any is_wanted es)
  unfolding evaluate verdict
  evaluate-is_wanted es = rw matched-is_wanted (ap some (keep-any is_wanted es))

  lookup-with_int_time :
      (j : String) (flat : Flat)
      → ("elapsed_ms" == j) ≡ false
      → lookup j (with_int_time py flat) ≡ lookup j flat
  unfolding with_int_time
  lookup-with_int_time j flat h = elim (Option-cases (lookup "elapsed_ms" flat)) [
    | inl e ↦ rw (with_int_time, e) refl
    | inr (v, e) ↦ elim (Option-cases (coerce_int py v)) [
      | inl f ↦ rw (with_int_time, e, f) refl
      | inr (i, f) ↦ rw (with_int_time, e, f) (rw (lookup-insert, h) refl)
    ]
  ]

  lookup-mark :
      (type name time : Json) (attrs : Attrs)
      → IsData k
      → lookup k (mark type name time attrs) ≡ lookup k attrs
  unfolding mark
  lookup-mark type name time attrs h =
      rw (lookup-insert, h.2, lookup-insert, h.1, lookup-insert, h.0) refl

  type-mark :
      (type name time : Json) (attrs : Attrs)
      → lookup "type" (mark type name time attrs) ≡ some type
  unfolding mark
  type-mark type name time attrs = rw (lookup-insert, lookup-insert, lookup-insert) refl

  pub wanted-mark :
      (type name time : Json) (attrs : Attrs)
      → IsData k
      → is_wanted (with_int_time py (mark type name time attrs))
        ≡ (is_text n type && ltb 0 (length (list_value py (default (list nil) (lookup k attrs)))))
  wanted-mark type name time attrs h =
      rw
        (
          lookup-with_int_time "type" (mark type name time attrs) refl,
          lookup-with_int_time k (mark type name time attrs) h.3,
          type-mark,
          lookup-mark type name time attrs h,
        )
        refl
