-- ===== src/Trace/Views.antt =====
-- `parse_trace` against a description of its result by the names of the spans.
use mathlib.Core.List.{foldl, append-nil, append_assoc}
use autonat_project.Base.{
  String, ◌≡◌, refl, ◌∙◌, ap, Bool, true, false, Option, none, some, List, [], ◌∷◌, ◌++◌, map, any,
  keep, last?, arith, Bool-cases, if◌then◌else◌, ◌>>=◌, Option-cases, inl, inr, ◌==◌, eq_iff,
}
use autonat_project.Base.Dict.{or_else}
use autonat_project.Json.{Json, null, bool, int, float, list, dict, Python, str, is_text}
use autonat_project.Trace.Attrs.{Span, Event}
use autonat_project.Trace.Parse.{
  Activity, Trace, Loading, start, activity, as_event, absorb, session_or_new, merge, decode_line,
  read_lines, parse_trace, is_testbed_name, in_testbed, testbed_span_names,
}

-- The spans of the lines that hold one, in order.
abbrev pub prepend : Option Span → List Span → List Span
prepend none ss = ss
prepend (some s) ss = s ∷ ss

-- A name that can be looked up in a set.
unfoldable pub is_hashable : Json → Bool
is_hashable (list vs) = false
is_hashable (dict fs) = false
is_hashable name = true

unfoldable pub with_name : Option Span → Option (Option Span)
with_name none = some none
with_name (some s) = if is_hashable s.name then some (some s) else none

-- What the branches add for a span whose name can be looked up.
absorbed : Loading → Span → Loading
absorbed st s =
    let r = st.result in
    if is_text "autonat.session" s.name
    then record st { result = record r { session = some (activity s) } }
    else if is_text "autonatv2.refresh_cycle" s.name
    then record st { result = record r { refresh_cycles = r.refresh_cycles ++ activity s ∷ [] } }
    else if is_text "autonatv2.probe" s.name
    then record st { result = record r { probes = r.probes ++ activity s ∷ [] } }
    else if is_text "autonatv2.server_selection" s.name
    then record st { result = record r { server_selections = r.server_selections ++ s.attrs ∷ [] } }
    else if is_testbed_name s.name
    then record st { extra_events = st.extra_events ++ as_event s ∷ [] }
    else st

in_testbed_lem :
    (v : Json) → in_testbed v ≡ (if is_hashable v then some (is_testbed_name v) else none)
unfolding in_testbed is_hashable
in_testbed_lem (list vs) = refl
in_testbed_lem (dict fs) = refl
in_testbed_lem null = refl
in_testbed_lem (bool b) = refl
in_testbed_lem (int n) = refl
in_testbed_lem (float r) = refl
in_testbed_lem (str s) = refl

named_hashable : (n : String) (v : Json) → is_text n v ≡ true → is_hashable v ≡ true
unfolding is_text is_hashable
named_hashable n (str s) h = refl
named_hashable n (list vs) h = absurd (cc h)
named_hashable n (dict fs) h = absurd (cc h)
named_hashable n null h = refl
named_hashable n (bool b) h = refl
named_hashable n (int i) h = refl
named_hashable n (float r) h = refl

absorb-absorbed :
    (st : Loading) (s : Span)
    → absorb st s ≡ (if is_hashable s.name then some (absorbed st s) else none)
unfolding absorb absorbed
absorb-absorbed st s = rw in_testbed_lem (
    ground (
      arith,
      named_hashable "autonat.session" s.name,
      named_hashable "autonatv2.refresh_cycle" s.name,
      named_hashable "autonatv2.probe" s.name,
      named_hashable "autonatv2.server_selection" s.name,
    ))

module _ (py : Python) where
  unfoldable pub spans_of : List String → Option (List Span)
  spans_of [] = some []
  spans_of (line ∷ rest) = do
    decoded ← decode_line py line
    o ← with_name decoded
    ss ← spans_of rest
    some (prepend o ss)

  read_lines-eq :
      (lines : List String) (st : Loading)
      → read_lines py lines st ≡ (do ss ← spans_of lines; some (foldl absorbed st ss))
  unfolding read_lines spans_of with_name
  read_lines-eq [] st = refl
  read_lines-eq (line ∷ rest) st = elim (Option-cases (decode_line py line)) [
    | inl e ↦ rw (e, read_lines)
    | inr (none, e) ↦ rw (e, read_lines) (ground (arith, read_lines-eq rest st))
    | inr (some s, e) ↦
        rw (e, read_lines, absorb-absorbed st s)
          (elim (Bool-cases (is_hashable s.name)) [
            | inr b ↦ rw b refl
            | inl b ↦ rw b (ground (arith, read_lines-eq rest (absorbed st s)))
          ])
  ]

abbrev pub named : String → Span → Bool
named n s = is_text n s.name

-- A name is one text.
pub is_text_one :
    (a b : String) (v : Json) → (a == b) ≡ false → is_text a v ≡ true → is_text b v ≡ false
unfolding is_text
is_text_one a b (str t) d h = ground (arith, eq_iff t a, eq_iff t b, eq_iff a b)
is_text_one a b _ d h = ground arith

any-is_text :
    (a : String) (v : Json) (ns : List String)
    → any (λ n. n == a) ns ≡ false
    → is_text a v ≡ true
    → any (λ n. is_text n v) ns ≡ false
unfolding any
any-is_text a v [] d h = refl
any-is_text a v (n ∷ ns) d h =
    ground (arith, any-is_text a v ns, is_text_one a n v, eq_iff n a, eq_iff a n)

not_testbed :
    (a : String) (v : Json)
    → any (λ n. n == a) testbed_span_names ≡ false
    → is_text a v ≡ true
    → is_testbed_name v ≡ false
unfolding is_testbed_name
not_testbed a v = any-is_text a v testbed_span_names

abbrev one_if {ℓ} : {A : Type ℓ} → Bool → A → List A
one_if b x = if b then x ∷ [] else []

abbrev pub is_event : Span → Bool
is_event s = is_testbed_name s.name

-- What one span adds to each field.
module _ (st : Loading) (s : Span) where
  cycles-absorbed :
      (absorbed st s).result.refresh_cycles
      ≡ st.result.refresh_cycles ++ one_if (named "autonatv2.refresh_cycle" s) (activity s)
  unfolding absorbed
  cycles-absorbed = ground (
    arith,
    append-nil st.result.refresh_cycles,
    is_text_one "autonat.session" "autonatv2.refresh_cycle" s.name refl,
  )

  probes-absorbed :
      (absorbed st s).result.probes
      ≡ st.result.probes ++ one_if (named "autonatv2.probe" s) (activity s)
  unfolding absorbed
  probes-absorbed = ground (
    arith,
    append-nil st.result.probes,
    is_text_one "autonat.session" "autonatv2.probe" s.name refl,
    is_text_one "autonatv2.refresh_cycle" "autonatv2.probe" s.name refl,
  )

  selections-absorbed :
      (absorbed st s).result.server_selections
      ≡ st.result.server_selections ++ one_if (named "autonatv2.server_selection" s) s.attrs
  unfolding absorbed
  selections-absorbed = ground (
    arith,
    append-nil st.result.server_selections,
    is_text_one "autonat.session" "autonatv2.server_selection" s.name refl,
    is_text_one "autonatv2.refresh_cycle" "autonatv2.server_selection" s.name refl,
    is_text_one "autonatv2.probe" "autonatv2.server_selection" s.name refl,
  )

  extra-absorbed :
      (absorbed st s).extra_events ≡ st.extra_events ++ one_if (is_event s) (as_event s)
  unfolding absorbed any
  extra-absorbed = ground (
    arith,
    append-nil st.extra_events,
    not_testbed "autonat.session" s.name refl,
    not_testbed "autonatv2.refresh_cycle" s.name refl,
    not_testbed "autonatv2.probe" s.name refl,
    not_testbed "autonatv2.server_selection" s.name refl,
  )

  session-absorbed :
      (absorbed st s).result.session
      ≡ (if named "autonat.session" s then some (activity s) else st.result.session)
  unfolding absorbed
  session-absorbed = ground arith

-- The loop over the spans, for any field that grows at its end.
module _ {ℓ} {A : Type ℓ} (get : Loading → List A) (p : Span → Bool) (f : Span → A)
    (grow : (st : Loading) (s : Span) → get (absorbed st s) ≡ get st ++ one_if (p s) (f s)) where
  foldl-absorbed :
      (ss : List Span) (st : Loading) → get (foldl absorbed st ss) ≡ get st ++ map f (keep p ss)
  unfolding keep
  foldl-absorbed [] st = rw append-nil
  foldl-absorbed (s ∷ ss) st =
      foldl-absorbed ss (absorbed st s)
      ∙ rw (grow, append_assoc) (ap (λ t. get st ++ t) (ground arith))

last?-cons {ℓ} : {A : Type ℓ} (x : A) (xs : List A) → last? (x ∷ xs) ≡ or_else (last? xs) (some x)
unfolding last?
last?-cons x [] = refl
last?-cons x (y ∷ []) = refl
last?-cons x (y ∷ z ∷ xs) = last?-cons x (z ∷ xs)

session-foldl :
    (ss : List Span) (st : Loading)
    → (foldl absorbed st ss).result.session
      ≡ or_else (last? (map activity (keep (named "autonat.session") ss))) st.result.session
unfolding keep last?
session-foldl [] st = refl
session-foldl (s ∷ ss) st =
    session-foldl ss (absorbed st s)
    ∙ ground (
      arith,
      session-absorbed st s,
      last?-cons (activity s) (map activity (keep (named "autonat.session") ss)),
    )

-- The session of the last session span, with the events of the other testbed spans behind its own.
abbrev pub session_with : Option Activity → List Event → Option Activity
session_with o [] = o
session_with o (e ∷ es) =
    some (record (session_or_new o) { events = (session_or_new o).events ++ e ∷ es })

-- The trace that a list of spans stands for.
abbrev pub trace_of : List Span → Trace
trace_of ss = record {
  session =
      session_with (last? (map activity (keep (named "autonat.session") ss)))
        (map as_event (keep is_event ss));
  refresh_cycles = map activity (keep (named "autonatv2.refresh_cycle") ss);
  probes = map activity (keep (named "autonatv2.probe") ss);
  server_selections = map (λ s. s.attrs) (keep (named "autonatv2.server_selection") ss);
}

or_else-none {ℓ} : {A : Type ℓ} (o : Option A) → or_else o none ≡ o
or_else-none none = refl
or_else-none (some a) = refl

merge-trace :
    (st : Loading)
    → merge st ≡ record st.result { session = session_with st.result.session st.extra_events }
unfolding merge
merge-trace st = ground arith

merge-foldl : (ss : List Span) → merge (foldl absorbed start ss) ≡ trace_of ss
merge-foldl ss =
    merge-trace _
    ∙ ground (
      arith,
      or_else-none (last? (map activity (keep (named "autonat.session") ss))),
      session-foldl ss start,
      foldl-absorbed (λ st. st.extra_events) is_event as_event extra-absorbed ss start,
      foldl-absorbed (λ st. st.result.refresh_cycles) _ activity cycles-absorbed ss start,
      foldl-absorbed (λ st. st.result.probes) _ activity probes-absorbed ss start,
      foldl-absorbed (λ st. st.result.server_selections) _ (λ s. s.attrs) selections-absorbed ss
          start,
    )

-- `parse_trace` fails exactly when a line that is neither blank nor undecodable has the wrong form
-- or a list or a dict as its span's name.
-- Otherwise it returns the refresh cycles, probes and server selections of the spans of that name,
-- in the order of the file, and the last session span with the testbed spans behind its events.
pub parse_trace_lem :
    (py : Python) (lines : List String)
    → parse_trace py lines ≡ (do ss ← spans_of py lines; some (trace_of ss))
unfolding parse_trace
parse_trace_lem py lines = rw read_lines-eq (elim (Option-cases (spans_of py lines)) [
  | inl e ↦ rw e
  | inr (ss, e) ↦ rw e (ap some (merge-foldl ss))
])
