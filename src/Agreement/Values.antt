-- ===== src/Agreement/Values.antt =====
-- The attributes of a span as results/generate_figures.py and testbed/analyze.py read them.
use Prim.Native.Char.{code}
use text.Mathlib.TextEquality.{Char-path}
use autonat_project.Base.{
  String, ◌≡◌, refl, sym, ap, ◌∙◌, Option, none, some, [], ◌==◌, starts_with, eqb, Bool-cases, inl,
  inr, arith, ◌⊎◌,
}
use autonat_project.Base.Always.{Always, Always-bind, Always-some}
use autonat_project.Base.Dict.{lookup, insert, lookup-insert}
use autonat_project.Base.Text.Laws.{starts-first, starts-onto}
use autonat_project.Json.{
  Json, null, bool, int, float, str, list, dict, is_text, Python, coerce_int, parsed_list,
}
use autonat_project.Trace.Attrs.{Attrs}
use autonat_project.Metrics.Events.{list_value}
use autonat_project.Figures.{begins_list, decoded_list, parse_list, attr_value}

begins_list-starts_with : (s : String) → begins_list s ≡ starts_with s "["
unfolding begins_list
begins_list-starts_with String.[] = refl
begins_list-starts_with (String.◌∷◌ c s) = elim (Bool-cases (eqb (code c) b'[')) [
  | inr e ↦ e ∙ sym (starts-first c "[" s "" e)
  | inl e ↦ let same : c ≡ "[" = Char-path c "[" (ground arith) in rw same (sym (starts-onto "[" s))
]

decoded_list-parsed_list : (o : Option Json) → decoded_list o ≡ parsed_list o
unfolding decoded_list
decoded_list-parsed_list none = refl
decoded_list-parsed_list (some null) = refl
decoded_list-parsed_list (some (bool b)) = refl
decoded_list-parsed_list (some (int n)) = refl
decoded_list-parsed_list (some (float r)) = refl
decoded_list-parsed_list (some (str s)) = refl
decoded_list-parsed_list (some (list vs)) = refl
decoded_list-parsed_list (some (dict fs)) = refl

module _ (py : Python) (to_float : Json → Option Json) where
  pub parse_list-list_value : (v : Json) → parse_list py to_float v ≡ list_value py v
  unfolding parse_list list_value
  parse_list-list_value (list vs) = refl
  parse_list-list_value (str s) =
      rw (begins_list-starts_with s, decoded_list-parsed_list (py.loads s)) refl
  parse_list-list_value null = refl
  parse_list-list_value (bool b) = refl
  parse_list-list_value (int n) = refl
  parse_list-list_value (float r) = refl
  parse_list-list_value (dict fs) = refl

  -- The value that the figures read for a key, and the one that the analysis reads.
  abbrev pub SameList : Json → Json → Type 0
  SameList v w = (w ≡ v) ⊎ (parse_list py to_float v ≡ [])

  abbrev pub SameLookup : Option Json → Option Json → Type 0
  SameLookup none o = Unit
  SameLookup (some v) o = (o ≡ some v) ⊎ (parse_list py to_float v ≡ [])

  pub SameLookup-insert :
      (j k : String) (v w : Json) (d e : Attrs)
      → SameList v w
      → SameLookup (lookup j d) (lookup j e)
      → SameLookup (lookup j (insert k v d)) (lookup j (insert k w e))
  SameLookup-insert j k v w d e same known =
      rw (lookup-insert k j v d, lookup-insert k j w e)
        (elim (Bool-cases (k == j)) [
          | inr b ↦ rw b known
          | inl b ↦ rw b (elim same [ inl p ↦ inl (ap some p) | inr p ↦ inr p ])
        ])

  module _ (no_list : (v w : Json) → to_float v ≡ some w → parse_list py to_float w ≡ []) where
    pub attr_value-SameList :
        (type v : Json) → Always (λ w. SameList w v) (attr_value py to_float type v)
    unfolding attr_value parse_list
    attr_value-SameList type v = elim (Bool-cases (is_text "INT64" type)) [
      | inl b ↦ rw b (Always-bind _ (coerce_int py v) _ (λ n e. Always-some _ (int n) (inr refl)))
      | inr b ↦ rw b (elim (Bool-cases (is_text "FLOAT64" type)) [
        | inl c ↦ rw c (λ w e. inr (no_list v w e))
        | inr c ↦ rw c (Always-some _ v (inl refl))
      ])
    ]
