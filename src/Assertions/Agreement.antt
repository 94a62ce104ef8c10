-- ===== src/Assertions/Agreement.antt =====
-- The attributes as testbed/eval-assertions.py and testbed/analyze.py read them.
use autonat_project.Base.{◌≡◌, refl, some, List, [], ◌∷◌, ◌>>=◌, Option-cases, inl, inr}
use autonat_project.Base.Dict.{insert}
use autonat_project.Json.{Json, null, bool, int, float, str, list, dict, end, field?, default}
use autonat_project.Trace.Attrs.{
  key_of, Attrs, rounds, extract_value, attr_of, flatten_loop, flatten_attrs,
}
use autonat_project.Assertions.Attributes.{
  extract_attr_value, attribute, attributes_loop, flatten_attributes,
}

extract_attr_value-extract_value : (v : Json) → extract_attr_value v ≡ extract_value v
unfolding extract_attr_value extract_value
extract_attr_value-extract_value null = refl
extract_attr_value-extract_value (bool b) = refl
extract_attr_value-extract_value (int n) = refl
extract_attr_value-extract_value (float r) = refl
extract_attr_value-extract_value (str s) = refl
extract_attr_value-extract_value (list vs) = refl
extract_attr_value-extract_value (dict fs) = refl

attribute-attr_of :
    (a : Json) (out : Attrs) → attribute a out ≡ (attr_of a >>= λ kv. some (insert kv.0 kv.1 out))
unfolding attribute attr_of
attribute-attr_of (dict fs) out =
    elim (Option-cases (key_of (default (str "") (field? "Key" fs)))) [
      | inl e ↦ rw e refl
      | inr (k, e) ↦
          rw (e, extract_attr_value-extract_value (default (dict end) (field? "Value" fs))) refl
    ]
attribute-attr_of null out = refl
attribute-attr_of (bool b) out = refl
attribute-attr_of (int n) out = refl
attribute-attr_of (float r) out = refl
attribute-attr_of (str s) out = refl
attribute-attr_of (list vs) out = refl

attributes_loop-flatten_loop :
    (attrs : List Json) (out : Attrs) → attributes_loop attrs out ≡ flatten_loop attrs out
unfolding attributes_loop flatten_loop
attributes_loop-flatten_loop [] out = refl
attributes_loop-flatten_loop (a ∷ attrs) out = elim (Option-cases (attr_of a)) [
  | inl e ↦ rw (attribute-attr_of a out) (rw e refl)
  | inr (kv, e) ↦
      rw (attribute-attr_of a out)
        (rw e (attributes_loop-flatten_loop attrs (insert kv.0 kv.1 out)))
]

-- On every value of "Attributes", also on one that raises an exception, the two programs agree.
pub flatten_attributes-flatten_attrs :
    (attrs : Json) → flatten_attributes attrs ≡ flatten_attrs attrs
unfolding flatten_attributes flatten_attrs
flatten_attributes-flatten_attrs attrs = elim (Option-cases (rounds attrs)) [
  | inl e ↦ rw e refl
  | inr (listed, e) ↦ rw e (attributes_loop-flatten_loop listed [])
]
