-- ===== src/Assertions/Laws.antt =====
-- What the assertions of testbed/eval-assertions.py say of the events.
use autonat_project.Base.{
  ◌≡◌, refl, ◌∙◌, String, Bool, true, false, not, Option, none, some, List, [], ◌∷◌, ◌++◌, ◌==◌,
  ◌>>=◌, arith, Option-cases, inl, inr, length-append, ap,
}
use autonat_project.Base.Dict.{Dict, lookup, lookup-insert}
use autonat_project.Base.Int.{ℤ}
use autonat_project.Json.{Json, int, Python, coerce_int}
use autonat_project.Trace.Attrs.{Attrs}
use autonat_project.Assertions.Load.{Flat, with_int_time, mark}
use autonat_project.Assertions.Evaluate.{
  Assertion, passes, holds, matches, matched, verdict, evaluate,
}

module _ (py : Python) where
  abbrev query : String → Assertion → Assertion
  query type a = record a { type = type }

  abbrev pub result : Assertion → List Flat → Option Bool
  result a events = do v ← evaluate py a events; some (passes v)

  -- On the same events and filters, "no_event" passes exactly when "has_event" fails, and one
  -- raises exactly when the other does.
  pub no_event-has_event :
      (a : Assertion) (events : List Flat)
      → result (query "no_event" a) events
        ≡ (do ok ← result (query "has_event" a) events; some (not ok))
  unfolding evaluate
  no_event-has_event a events = elim (Option-cases (matched py a.event a.filter events)) [
    | inl e ↦ rw e
    | inr (found, e) ↦ rw e (ground arith)
  ]

  -- The matches of a longer trace are those of its parts, in order.
  pub matched-append :
      (event_type : String) (filters : Dict Json) (es fs : List Flat)
      → matched py event_type filters (es ++ fs) ≡ (do
        xs ← matched py event_type filters es
        ys ← matched py event_type filters fs
        some (xs ++ ys))
  unfolding matched
  matched-append event_type filters [] fs = ground arith
  matched-append event_type filters (e ∷ es) fs =
      elim (Option-cases (matches py e event_type filters)) [
        | inl h ↦ rw h
        | inr (b, h) ↦ rw h (ground (arith, matched-append event_type filters es fs))
      ]

  -- Once a "has_event" assertion passes on a trace, it passes on every trace that goes on from it,
  -- unless one of the later events makes a filter raise.
  pub has_event-append :
      (a : Assertion) (es fs ys : List Flat)
      → result (query "has_event" a) es ≡ some true
      → matched py a.event a.filter fs ≡ some ys
      → result (query "has_event" a) (es ++ fs) ≡ some true
  unfolding evaluate
  has_event-append a es fs ys h k = elim (Option-cases (matched py a.event a.filter es)) [
    | inl e ↦ absurd (cc (rw e at h))
    | inr (xs, e) ↦ rw matched-append (rw (e, k) (ground (arith, rw e at h, length-append xs ys)))
  ]

  -- An "info" assertion always passes, and an assertion of a type that is not known never does.
  pub verdict_other :
      (a : Assertion) (found : List Flat)
      → ((a.type == "no_event") ≡ false)
      → ((a.type == "has_event") ≡ false)
      → passes (verdict a found) ≡ (a.type == "info")
  unfolding verdict
  verdict_other a found h k = ground arith

  -- A field passes "is_empty" exactly when it fails "not_empty".
  pub is_empty-not_empty :
      (e : Flat) (val : Json)
      → holds py e "is_empty" val ≡ (do b ← holds py e "not_empty" val; some (not b))
  unfolding holds
  is_empty-not_empty e val = ground arith

  lookup-mark :
      (type span_name time : Json) (attrs : Attrs)
      → let e = mark type span_name time attrs in
        (lookup "type" e ≡ some type)
        × (lookup "_span_name" e ≡ some span_name)
        × (lookup "_time" e ≡ some time)
        × (lookup "elapsed_ms" e ≡ lookup "elapsed_ms" attrs)
  unfolding mark
  lookup-mark type span_name time attrs =
      (simp lookup-insert, simp lookup-insert, simp lookup-insert, simp lookup-insert)

  with_int_time_other :
      (k : String) (e : Flat)
      → ("elapsed_ms" == k) ≡ false
      → lookup k (with_int_time py e) ≡ lookup k e
  unfolding with_int_time
  with_int_time_other k e h = elim (Option-cases (lookup "elapsed_ms" e)) [
    | inl a ↦ rw (a, with_int_time)
    | inr (v, a) ↦ elim (Option-cases (coerce_int py v)) [
      | inl b ↦ rw (a, with_int_time) (rw b)
      | inr (n, b) ↦ rw (a, with_int_time) (rw b (rw lookup-insert (rw h)))
    ]
  ]

  -- A time as an integer where it can be read as one.
  abbrev pub int_or_same : Json → Option ℤ → Json
  int_or_same v none = v
  int_or_same v (some n) = int n

  abbrev pub read_time : Option Json → Option Json
  read_time none = none
  read_time (some v) = some (int_or_same v (coerce_int py v))

  with_int_time_lem :
      (e : Flat) → lookup "elapsed_ms" (with_int_time py e) ≡ read_time (lookup "elapsed_ms" e)
  unfolding with_int_time
  with_int_time_lem e = elim (Option-cases (lookup "elapsed_ms" e)) [
    | inl a ↦ rw (a, with_int_time) (rw a)
    | inr (v, a) ↦ elim (Option-cases (coerce_int py v)) [
      | inl b ↦ rw (a, with_int_time) (rw b (rw a))
      | inr (n, b) ↦ rw (a, with_int_time) (rw b (rw lookup-insert))
    ]
  ]

  -- Whatever its attributes are, a loaded event has its type, its span's name and its time under
  -- "type", "_span_name" and "_time", and under "elapsed_ms" the attribute's value, as an integer
  -- if it can be read as one.
  pub lookup-marked :
      (type span_name time : Json) (attrs : Attrs)
      → let e = with_int_time py (mark type span_name time attrs) in
        (lookup "type" e ≡ some type)
        × (lookup "_span_name" e ≡ some span_name)
        × (lookup "_time" e ≡ some time)
        × (lookup "elapsed_ms" e ≡ read_time (lookup "elapsed_ms" attrs))
  lookup-marked type span_name time attrs = (
    with_int_time_other "type" (mark type span_name time attrs) refl
        ∙ (lookup-mark type span_name time attrs).0,
    with_int_time_other "_span_name" (mark type span_name time attrs) refl
        ∙ (lookup-mark type span_name time attrs).1,
    with_int_time_other "_time" (mark type span_name time attrs) refl
        ∙ (lookup-mark type span_name time attrs).2,
    with_int_time_lem (mark type span_name time attrs)
        ∙ ap read_time (lookup-mark type span_name time attrs).3,
  )
