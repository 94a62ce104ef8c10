-- ===== src/Scenario/Filter/Laws.antt =====
-- Which scenarios `apply_filter` keeps.
use mathlib.Core.Path.{subst, sym}
use autonat_project.Base.{
  String, ◌≡◌, refl, ◌↔◌, ◌⊎◌, inl, inr, true, none, some, List, [], ◌∷◌, ◌==◌, eq_iff, OneOf, All,
  arith, Bool-cases, Option-cases,
}
use autonat_project.Base.Dict.{Dict}
use autonat_project.Scenario.Defs.{Scenario}
use autonat_project.Scenario.Filter.{parse_filters, is_match, matching, apply_filter}

module _ (attribute : Scenario → String → String) where
  -- A scenario has the value of each key.
  abbrev pub Agrees : Dict String → Scenario → Type 0
  Agrees filters s = All (λ (e : String × String). attribute s e.0 ≡ e.1) filters

  is_match_iff :
      (filters : Dict String) (s : Scenario)
      → (is_match attribute filters s ≡ true) ↔ Agrees filters s
  unfolding is_match
  is_match_iff [] s = (λ h. tt, λ u. refl)
  is_match_iff ((k, v) ∷ filters) s =
      ground (arith, eq_iff (attribute s k) v, is_match_iff filters s)

  matching_iff :
      (filters : Dict String) (ss : List Scenario) (s : Scenario)
      → OneOf s (matching attribute filters ss) ↔ (OneOf s ss × Agrees filters s)
  unfolding matching
  matching_iff filters [] s = (λ m. absurd m, λ (m, g). m)
  matching_iff filters (s ∷ ss) t = elim (Bool-cases (is_match attribute filters s)) [
    | inl e ↦ rw e (
      λ m. elim m [
        | inl p ↦ (inl p, subst (Agrees filters) (sym p) ((is_match_iff filters s).0 e))
        | inr m ↦ let (a, b) = (matching_iff filters ss t).0 m in (inr a, b)
      ],
      λ (m, g). elim m [ inl p ↦ inl p | inr m ↦ inr ((matching_iff filters ss t).1 (m, g)) ],
    )
    | inr e ↦ rw e (
      λ m. let (a, b) = (matching_iff filters ss t).0 m in (inr a, b),
      λ (m, g). elim m [
        | inl p ↦ absurd (cc (e, (is_match_iff filters s).1 (subst (Agrees filters) p g)))
        | inr m ↦ (matching_iff filters ss t).1 (m, g)
      ],
    )
  ]

  -- With an empty filter every scenario is kept. A filter that does not parse into pairs is an
  -- exception. With one that does, a scenario is kept exactly when it is there and its attributes,
  -- as texts, have the values of the pairs.
  pub apply_filter_lem :
      (ss : List Scenario) (filter_str : String)
      → ((filter_str ≡ "") × (apply_filter attribute ss filter_str ≡ some ss))
        ⊎ ((parse_filters filter_str ≡ none) × (apply_filter attribute ss filter_str ≡ none))
        ⊎ ((filters : Dict String) × (result : List Scenario) × (parse_filters filter_str
              ≡ some filters)
            × (apply_filter attribute ss filter_str ≡ some result)
            × ((s : Scenario) → OneOf s result ↔ (OneOf s ss × Agrees filters s)))
  unfolding apply_filter
  apply_filter_lem ss filter_str = elim (Bool-cases (filter_str == "")) [
    | inl e ↦ inl ((eq_iff filter_str "").0 e, rw e refl)
    | inr e ↦ elim (Option-cases (parse_filters filter_str)) [
      | inl none_e ↦ inr (inl (none_e, rw (e, none_e) refl))
      | inr (filters, some_e) ↦ inr (
          inr (
            filters,
            matching attribute filters ss,
            some_e,
            rw (e, some_e) refl,
            matching_iff filters ss,
          ))
    ]
  ]
