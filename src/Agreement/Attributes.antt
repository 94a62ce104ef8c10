-- ===== src/Agreement/Attributes.antt =====
-- The attributes of a span: `parse_spans` of results/generate_figures.py against `_flatten_attrs` of
-- testbed/analyze.py.
use autonat_project.Base.{
  String, ◌≡◌, refl, sym, ap, ◌∙◌, true, false, Option, none, some, List, [], ◌∷◌, if◌then◌else◌,
  Bool-cases, inl, inr,
}
use autonat_project.Base.Always.{Always, Always-bind, Always-some}
use autonat_project.Base.Dict.{lookup, insert}
use autonat_project.Json.{
  Json, Fields, null, bool, int, float, str, list, dict, nil, cons, end, field, field?, truthy,
  iterate, key_items, char_items, Python,
}
use autonat_project.Trace.Attrs.{
  Attrs, key_of, attr_of, extract_value, flatten_loop, flatten_attrs, rounds,
}
use autonat_project.Figures.{fields_of, key_text, parse_list, attr_value, figure_attr, figure_attrs}
use autonat_project.Agreement.Values.{SameList, SameLookup, SameLookup-insert, attr_value-SameList}

pub fields_of-dict : (v : Json) (fs : Fields) → fields_of v ≡ some fs → v ≡ dict fs
unfolding fields_of
fields_of-dict (dict fs) gs h = cc h
fields_of-dict null gs h = absurd (cc h)
fields_of-dict (bool b) gs h = absurd (cc h)
fields_of-dict (int n) gs h = absurd (cc h)
fields_of-dict (float r) gs h = absurd (cc h)
fields_of-dict (str s) gs h = absurd (cc h)
fields_of-dict (list vs) gs h = absurd (cc h)

key_text-str : (v : Json) (k : String) → key_text v ≡ some k → v ≡ str k
unfolding key_text
key_text-str (str s) k h = cc h
key_text-str null k h = absurd (cc h)
key_text-str (bool b) k h = absurd (cc h)
key_text-str (int n) k h = absurd (cc h)
key_text-str (float r) k h = absurd (cc h)
key_text-str (dict fs) k h = absurd (cc h)
key_text-str (list vs) k h = absurd (cc h)

-- What the loop of `parse_spans` runs through.
abbrev pub listed_of : Json → Json
listed_of given = if truthy given then given else list nil

module _ (py : Python) (to_float : Json → Option Json)
    (no_list : (v w : Json) → to_float v ≡ some w → parse_list py to_float w ≡ []) where
  -- The attribute is read by both, under one key, with values that hold the same list.
  abbrev Read : Json → Attrs → Attrs → Type 0
  Read a out next =
      (k : String) × (v : Json) × (w : Json) × (next ≡ insert k v out)
      × (attr_of a ≡ some (k, w))
      × SameList py to_float v w

  figure_attr-Read : (a : Json) (out : Attrs) → Always (Read a out) (figure_attr py to_float a out)
  unfolding figure_attr attr_of key_of extract_value
  figure_attr-Read a out = Always-bind _ (fields_of a) _ (λ fs ef.
      Always-bind _ (field? "Value" fs) _ (λ v ev. Always-bind _ (fields_of v) _ (λ typed et.
        Always-bind _ (field? "Type" typed) _ (λ type ey.
          Always-bind _ (field? "Value" typed) _ (λ raw er.
            Always-bind _ (attr_value py to_float type raw) _ (λ value ea.
              Always-bind _ (field? "Key" fs) _ (λ key ek. Always-bind _ (key_text key) _ (λ k es.
                Always-some _ _ (
                  k,
                  value,
                  raw,
                  refl,
                  rw
                      (
                        fields_of-dict a fs ef,
                        attr_of,
                        ek,
                        key_text-str key k es,
                        ev,
                        fields_of-dict v typed et,
                        er,
                      )
                      refl,
                  attr_value-SameList py to_float no_list type raw value ea,
                )))))))))

  abbrev Known : String → Attrs → Attrs → Type 0
  Known j d e = SameLookup py to_float (lookup j d) (lookup j e)

  pub figure_attrs-flatten_loop :
      (j : String) (vs : List Json) (d e : Attrs)
      → Known j d e
      → Always
          (λ d'. (e' : Attrs) × (flatten_loop vs e ≡ some e') × Known j d' e')
          (figure_attrs py to_float vs d)
  unfolding figure_attrs flatten_loop
  figure_attrs-flatten_loop j [] d e h = Always-some _ d (e, refl, h)
  figure_attrs-flatten_loop j (a ∷ rest) d e h =
      Always-bind _ (figure_attr py to_float a d) _ (λ next en.
        let (k, v, w, new, read, same) = figure_attr-Read a d next en in
        rw read (
          figure_attrs-flatten_loop j rest next (insert k w e)
            (rw new (SameLookup-insert py to_float j k v w d e same h))))

  whole : (given : Json) → truthy given ≡ true → listed_of given ≡ given
  whole given b = rw b refl

  none_of : (given : Json) → truthy given ≡ false → listed_of given ≡ list nil
  none_of given b = rw b refl

  rounds-falsy : (given : Json) → truthy given ≡ false → rounds given ≡ some []
  unfolding rounds truthy
  rounds-falsy (list nil) h = refl
  rounds-falsy (list (cons v vs)) h = absurd (cc h)
  rounds-falsy null h = refl
  rounds-falsy (bool b) h = rw h refl
  rounds-falsy (int n) h = rw h refl
  rounds-falsy (float r) h = rw h refl
  rounds-falsy (str s) h = rw h refl
  rounds-falsy (dict fs) h = rw h refl

  no_attr :
      (v : Json) (vs : List Json) → fields_of v ≡ none → figure_attrs py to_float (v ∷ vs) [] ≡ none
  unfolding figure_attrs figure_attr
  no_attr v vs h = rw h refl

  -- A truthy value whose items all have attributes' form is a list.
  iterate-rounds :
      (given : Json) (vs : List Json) (d : Attrs)
      → truthy given ≡ true
      → iterate given ≡ some vs
      → figure_attrs py to_float vs [] ≡ some d
      → rounds given ≡ some vs
  unfolding rounds iterate fields_of truthy key_items char_items
  iterate-rounds (list vs) ws d h e f = e
  iterate-rounds null ws d h e f = absurd (cc e)
  iterate-rounds (bool b) ws d h e f = absurd (cc e)
  iterate-rounds (int n) ws d h e f = absurd (cc e)
  iterate-rounds (float r) ws d h e f = absurd (cc e)
  iterate-rounds (str String.[]) ws d h e f = absurd (cc h)
  iterate-rounds (str (String.◌∷◌ c s)) ws d h e f =
      absurd (cc (e, f, no_attr (str (String.◌∷◌ c String.[])) (char_items s) refl))
  iterate-rounds (dict end) ws d h e f = absurd (cc h)
  iterate-rounds (dict (field k v fs)) ws d h e f =
      absurd (cc (e, f, no_attr (str k) (key_items fs) refl))

  pub figure_attrs-flatten_attrs :
      (j : String) (given : Json) (vs : List Json) (d : Attrs)
      → iterate (listed_of given) ≡ some vs
      → figure_attrs py to_float vs [] ≡ some d
      → (e : Attrs) × (flatten_attrs given ≡ some e) × Known j d e
  unfolding flatten_attrs lookup iterate
  figure_attrs-flatten_attrs j given vs d h f = elim (Bool-cases (truthy given)) [
    | inl b ↦
        rw (iterate-rounds given vs d b (ap iterate (sym (whole given b)) ∙ h) f)
          (figure_attrs-flatten_loop j vs [] [] tt d f)
    | inr b ↦
        rw (rounds-falsy given b ∙ ap iterate (sym (none_of given b)) ∙ h)
          (figure_attrs-flatten_loop j vs [] [] tt d f)
  ]
