-- ===== src/Agreement/Reports.antt =====
-- The reports in a trace, as testbed/analyze.py and testbed/eval-assertions.py see them.
use autonat_project.Base.{
  String, ◌≡◌, refl, ◌∙◌, ap, ◌⊎◌, Bool, true, false, ◌&&◌, ◌||◌, List, [], ◌∷◌, map, any,
  any-append, arith, All, OneOf, OneOf-All, Bool-cases, inl, inr, eq_iff,
}
use autonat_project.Base.Dict.{lookup}
use autonat_project.Json.{Json, null, bool, int, float, str, list, dict, is_text, Python}
use autonat_project.Trace.Attrs.{Attrs, Event, Span}
use autonat_project.Trace.Parse.{as_event, is_testbed_name, testbed_span_names}
use autonat_project.Trace.Views.{named}
use autonat_project.Metrics.Events.{named_event, list_value, list_attr, lists_some}
use autonat_project.Assertions.Load.{in_library, own_event}
use autonat_project.Agreement.Lists.{any-map, any-same}
use autonat_project.Agreement.Events.{flat_of, own_of, flats, all_flats}
use autonat_project.Agreement.Filters.{IsData, is_wanted, wanted-mark}

apart : All (λ m. in_library (str m) ≡ false) testbed_span_names
unfolding in_library any is_text
apart = (
  refl,
  (
    refl,
    (
      refl,
      (
        refl,
        (
          refl,
          (
            refl,
            (
              refl,
              (refl, (refl, (refl, (refl, (refl, (refl, (refl, (refl, (refl, (refl, tt)))))))))),
            ),
          ),
        ),
      ),
    ),
  ),
)

in_testbed_of : All (λ m. is_testbed_name (str m) ≡ true) testbed_span_names
unfolding is_testbed_name any is_text
in_testbed_of = (
  refl,
  (
    refl,
    (
      refl,
      (
        refl,
        (
          refl,
          (
            refl,
            (
              refl,
              (refl, (refl, (refl, (refl, (refl, (refl, (refl, (refl, (refl, (refl, tt)))))))))),
            ),
          ),
        ),
      ),
    ),
  ),
)

pub testbed_name :
    (n : String) (v : Json)
    → OneOf n testbed_span_names
    → is_text n v ≡ true
    → is_testbed_name v ≡ true
unfolding is_text
testbed_name n (str t) h e =
    rw ((eq_iff t n).0 e)
      (OneOf-All (λ m. is_testbed_name (str m) ≡ true) n testbed_span_names h in_testbed_of)
testbed_name n null h e = absurd (cc e)
testbed_name n (bool b) h e = absurd (cc e)
testbed_name n (int i) h e = absurd (cc e)
testbed_name n (float r) h e = absurd (cc e)
testbed_name n (list vs) h e = absurd (cc e)
testbed_name n (dict fs) h e = absurd (cc e)

-- A name of an event is no name of a span that has events.
not_library :
    (n : String) (v : Json) → OneOf n testbed_span_names → is_text n v ≡ true → in_library v ≡ false
unfolding is_text
not_library n (str t) h e =
    rw ((eq_iff t n).0 e) (OneOf-All (λ m. in_library (str m) ≡ false) n testbed_span_names h apart)
not_library n null h e = absurd (cc e)
not_library n (bool b) h e = absurd (cc e)
not_library n (int i) h e = absurd (cc e)
not_library n (float r) h e = absurd (cc e)
not_library n (list vs) h e = absurd (cc e)
not_library n (dict fs) h e = absurd (cc e)

module _ (py : Python) (n k : String) where
  -- An event of the name whose list is not empty.
  abbrev pub is_report : Event → Bool
  is_report e = named_event n e && lists_some py k e

  wanted-flat :
      IsData k → (name : Json) (e : Event) → is_wanted py n k (flat_of py name e) ≡ is_report e
  unfolding lists_some list_attr
  wanted-flat h name e = wanted-mark py n k e.name name e.time e.attrs h

  wanted-own :
      (name time : Json) (attrs : Attrs)
      → IsData k
      → any (is_wanted py n k) (own_event py name time attrs)
        ≡ is_report (record { name = name; time = time; attrs = attrs })
  unfolding own_event lists_some list_attr any lookup list_value
  wanted-own name time [] h = ground arith
  wanted-own name time (kv ∷ attrs) h =
      rw (wanted-mark py n k name name time (kv ∷ attrs) h) (ground arith)

  own-report :
      (s : Span)
      → IsData k
      → OneOf n testbed_span_names
      → any (is_wanted py n k) (own_of py s) ≡ is_report (as_event s)
  unfolding own_of any
  own-report s h named_so = elim (Bool-cases (in_library s.name)) [
    | inr b ↦ rw b (wanted-own s.name s.start_time s.attrs h)
    | inl b ↦ rw b (elim (Bool-cases (is_text n s.name)) [
      | inl e ↦ absurd (cc (b, not_library n s.name named_so e))
      | inr e ↦ rw e refl
    ])
  ]

  -- The events of the name stand in a session, or are spans of their own.
  abbrev pub Stands : Span → Type 0
  Stands s = (named "autonat.session" s ≡ true) ⊎ (any (named_event n) s.events ≡ false)

  abbrev pub in_session : Span → Bool
  in_session s = named "autonat.session" s && any is_report s.events

  no_report : (es : List Event) → any (named_event n) es ≡ false → any is_report es ≡ false
  unfolding any
  no_report [] h = refl
  no_report (e ∷ es) h = ground (arith, no_report es)

  Stands-any : (s : Span) → Stands s → any is_report s.events ≡ in_session s
  Stands-any s (inl e) = rw e refl
  Stands-any s (inr e) = rw (no_report s.events e) (ground arith)

  flats-report :
      (s : Span)
      → IsData k
      → OneOf n testbed_span_names
      → Stands s
      → any (is_wanted py n k) (flats py s) ≡ (in_session s || is_report (as_event s))
  flats-report s h named_so stands =
      any-append (is_wanted py n k) (map (flat_of py s.name) s.events) (own_of py s)
      ∙ rw
          (
            own-report s h named_so,
            any-map (is_wanted py n k) (flat_of py s.name) s.events,
            any-same (λ e. is_wanted py n k (flat_of py s.name e)) is_report s.events
                (wanted-flat h s.name),
          )
          (ap (λ b. b || is_report (as_event s)) (Stands-any s stands))

  pub all_flats-report :
      (ss : List Span)
      → IsData k
      → OneOf n testbed_span_names
      → All Stands ss
      → any (is_wanted py n k) (all_flats py ss)
        ≡ (any in_session ss || any (λ s. is_report (as_event s)) ss)
  unfolding all_flats any
  all_flats-report [] h named_so all = refl
  all_flats-report (s ∷ ss) h named_so all =
      any-append (is_wanted py n k) (flats py s) (all_flats py ss)
      ∙ rw (flats-report s h named_so all.0, all_flats-report ss h named_so all.1) (ground arith)
