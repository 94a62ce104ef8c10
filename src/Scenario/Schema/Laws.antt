-- ===== src/Scenario/Schema/Laws.antt =====
-- What a scenario takes from its entry and from the defaults, and how many scenarios there are.
use mathlib.Core.Path.{subst}
use autonat_project.Base.{
  suc, String, ◌≡◌, refl, ap, ◌∙◌, ◌⊎◌, true, Option, none, some, List, [], ◌∷◌, ◌==◌, eq_iff,
  length, arith, Bool-cases, Option-cases, inl, inr, ◌>>=◌, if◌then◌else◌,
}
use autonat_project.Base.Always.{Always, Always-bind, Always-some}
use autonat_project.Base.Dict.{Dict, lookup, last_value, or_else, lookup-insert_all}
use autonat_project.Json.{Json, Python}
use autonat_project.Trace.Attrs.{traverse}
use autonat_project.Runner.Jaeger.Laws.{IsDict}
use autonat_project.Scenario.Expand.{expand_matrix}
use autonat_project.Scenario.Expand.Laws.{sizes, length-expand_matrix}
use autonat_project.Scenario.Defs.{Scenario}
use autonat_project.Scenario.Schema.{is_null, given_values, merged, or_value, text_of}
use autonat_project.Scenario.Schema.Document.{matrix_of, raised, parsed, expanded, expand_scenarios}

-- A value other than None.
abbrev pub not_null : Json → Option Json
not_null v = if is_null v then none else some v

last_value-given_values :
    (k : String) (raw : Dict Json)
    → IsDict raw
    → last_value k (given_values raw) ≡ (lookup k raw >>= not_null)
unfolding last_value given_values lookup
last_value-given_values k [] h = refl
last_value-given_values k ((j, v) ∷ raw) (h, hs) = elim (Bool-cases (is_null v)) [
  | inl n ↦ elim (Bool-cases (j == k)) [
    | inl e ↦ rw (n, e, last_value-given_values k raw hs, same e, n) refl
    | inr e ↦ rw (n, e) (last_value-given_values k raw hs)
  ]
  | inr n ↦ elim (Bool-cases (j == k)) [
    | inl e ↦ rw (n, last_value, last_value-given_values k raw hs, same e, e, n) refl
    | inr e ↦ rw (n, last_value, e, last_value-given_values k raw hs) (ground arith)
  ]
]
  where
    same : (j == k) ≡ true → lookup k raw ≡ none
    same e = subst (λ (x : String). lookup x raw ≡ none) ((eq_iff j k).0 e) h

-- For an entry that holds no key twice: a key has the entry's value, unless the entry lacks it or
-- gives None; then it has the value of the defaults, if there is one.
pub lookup-merged :
    (k : String) (raw defaults : Dict Json)
    → IsDict raw
    → lookup k (merged raw defaults) ≡ or_else (lookup k raw >>= not_null) (lookup k defaults)
unfolding merged
lookup-merged k raw defaults h =
    rw (lookup-insert_all k (given_values raw) defaults, last_value-given_values k raw h) refl

traverse-length :
    {A B : Type 0} (f : A → Option B) (xs : List A)
    → Always (λ (ys : List B). length ys ≡ length xs) (traverse f xs)
unfolding traverse
traverse-length f [] = Always-some _ [] refl
traverse-length f (x ∷ xs) = Always-bind _ (f x) _ (λ y _.
    Always-bind _ (traverse f xs) _
      (λ ys e. Always-some _ (y ∷ ys) (ap suc (traverse-length f xs ys e))))

module _ (py : Python) (yaml_data : Dict Json) where
  parsed-length :
      (rows : List (Dict Json))
      → Always (λ (r : String × List Scenario). length r.1 ≡ length rows) (parsed py yaml_data rows)
  unfolding parsed
  parsed-length rows =
      Always-bind _ (or_value "unnamed" text_of (lookup "name" yaml_data)) _ (λ name _.
        Always-bind _ (traverse _ rows) _
          (λ scenarios e. Always-some _ (name, scenarios) (traverse-length _ rows scenarios e)))

  -- A file with a matrix and no list of scenarios expands into as many scenarios as the product of
  -- the sizes of the matrix's lists, unless a value raises an exception.
  pub expand_scenarios-length :
      (matrix : Json) (m : Dict (List Json))
      → lookup "matrix" yaml_data ≡ some matrix
      → lookup "scenarios" yaml_data ≡ none
      → matrix_of matrix ≡ some m
      → (expand_scenarios py yaml_data ≡ raised)
        ⊎ ((name : String) × (scenarios : List Scenario) × (expand_scenarios py yaml_data
              ≡ expanded name scenarios)
            × (length scenarios ≡ sizes m))
  unfolding expand_scenarios
  expand_scenarios-length matrix m given absent is_matrix =
      elim (Option-cases (parsed py yaml_data (expand_matrix m))) [
        | inl e ↦ inl (rw (expand_scenarios, given, absent, is_matrix, e) refl)
        | inr ((name, scenarios), e) ↦ inr (
          name,
          scenarios,
          rw (expand_scenarios, given, absent, is_matrix, e) refl,
          parsed-length (expand_matrix m) (name, scenarios) e ∙ length-expand_matrix m,
        )
      ]
