-- ===== src/Trace/Attrs.antt =====
-- The attributes and the events of one span, as `parse_trace` reads them from the decoded JSON.
use autonat_project.Base.{
  String, ◌≡◌, refl, Option, none, some, List, [], ◌∷◌, arith, if◌then◌else◌, ◌>>=◌, Option-cases,
  inl, inr, ap,
}
use autonat_project.Base.Dict.{Dict, lookup, insert, insert_all, last_value, lookup-insert_all_new}
use autonat_project.Json.{Json, null, str, list, dict, nil, end, elements, field?, default, truthy}

abbrev pub Attrs : Type 0
Attrs = Dict Json

-- `_extract_value`
unfoldable pub extract_value : Json → Json
extract_value (dict fs) = default (dict fs) (field? "Value" fs)
extract_value v = v

-- What a loop runs over, where each round calls `.get` on its item: nothing for a falsy value, the
-- items of a list, and an exception for any other value.
unfoldable pub rounds : Json → Option (List Json)
rounds (list vs) = some (elements vs)
rounds v = if truthy v then none else some []

-- A key that is no text does not occur in a trace, and counts as an exception here.
unfoldable pub key_of : Json → Option String
key_of (str k) = some k
key_of _ = none

-- The key and the value of one attribute.
unfoldable pub attr_of : Json → Option (String × Json)
unfolding key_of extract_value
attr_of (dict fs) = do
  k ← key_of (default (str "") (field? "Key" fs))
  some (k, extract_value (default (dict end) (field? "Value" fs)))
attr_of _ = none

-- The loop of `_flatten_attrs`.
unfoldable pub flatten_loop : List Json → Attrs → Option Attrs
flatten_loop [] out = some out
flatten_loop (a ∷ rest) out = do kv ← attr_of a; flatten_loop rest (insert kv.0 kv.1 out)

-- `_flatten_attrs`
unfoldable pub flatten_attrs : Json → Option Attrs
unfolding flatten_loop attr_of rounds
flatten_attrs attrs = do listed ← rounds attrs; flatten_loop listed []

-- All results of a step that may raise.
unfoldable pub traverse {ℓ κ} :
    {A : Type ℓ} {B : Type κ} → (A → Option B) → List A → Option (List B)
traverse f [] = some []
traverse f (x ∷ xs) = do y ← f x; ys ← traverse f xs; some (y ∷ ys)

pub record Event : Type 0 where
  pub name : Json
  pub time : Json
  pub attrs : Attrs

unfoldable pub event_of : Json → Option Event
unfolding flatten_attrs
event_of (dict e) = do
  attrs ← flatten_attrs (default (list nil) (field? "Attributes" e))
  some (record {
    name = default (str "") (field? "Name" e);
    time = default (str "") (field? "Time" e);
    attrs = attrs;
  })
event_of _ = none

-- What `parse_trace` takes from a line's span.
pub record Span : Type 0 where
  pub name : Json
  pub attrs : Attrs
  pub events : List Event
  pub start_time : Json

unfoldable pub span_of : Json → Option Span
unfolding flatten_attrs event_of traverse
span_of (dict s) = do
  attrs ← flatten_attrs (default (list nil) (field? "Attributes" s))
  raw_events ← rounds (default null (field? "Events" s))
  events ← traverse event_of raw_events
  some (record {
    name = default (str "") (field? "Name" s);
    attrs = attrs;
    events = events;
    start_time = default (str "") (field? "StartTime" s);
  })
span_of _ = none

-- The loop assigns the keys and values of the list, one after another.
flatten_loop-insert_all :
    (vs : List Json) (out : Attrs)
    → flatten_loop vs out ≡ (do kvs ← traverse attr_of vs; some (insert_all kvs out))
unfolding flatten_loop traverse insert_all
flatten_loop-insert_all [] out = refl
flatten_loop-insert_all (a ∷ rest) out = elim (Option-cases (attr_of a)) [
  | inl e ↦ rw e
  | inr (kv, e) ↦ rw e (ground (arith, flatten_loop-insert_all rest (insert kv.0 kv.1 out)))
]

lookup-flatten_loop :
    (vs : List Json) (k : String)
    → (do out ← flatten_loop vs []; some (lookup k out))
      ≡ (do kvs ← traverse attr_of vs; some (last_value k kvs))
lookup-flatten_loop vs k = rw flatten_loop-insert_all (elim (Option-cases (traverse attr_of vs)) [
  | inl e ↦ rw e
  | inr (kvs, e) ↦ rw e (ap some (lookup-insert_all_new k kvs))
])

-- What `_flatten_attrs` returns for a key is the value of the last attribute with that key, and it
-- raises exactly when the list or one of its attributes has the wrong form.
pub lookup-flatten_attrs :
    (v : Json) (k : String)
    → (do out ← flatten_attrs v; some (lookup k out))
      ≡ (do vs ← rounds v; kvs ← traverse attr_of vs; some (last_value k kvs))
unfolding flatten_attrs
lookup-flatten_attrs v k = elim (Option-cases (rounds v)) [
  | inl e ↦ rw e
  | inr (vs, e) ↦ rw e (lookup-flatten_loop vs k)
]
