-- ===== src/Figures/Names/Laws.antt =====
-- The loops over the numbers of a name in `parse_scenario_name` of results/generate_figures.py.
use autonat_project.Base.{
  ℕ, zero, suc, String, ◌≡◌, refl, sym, false, Option, none, some, List, [], ◌∷◌, ◌++◌, inl, inr,
  starts_with, Bool-cases, All,
}
use Prim.Native.Char.{Char, code}
use autonat_project.Base.Int.{ℤ, pos}
use autonat_project.Base.Show.{show_ℕ}
use autonat_project.Base.Text.{is_digit}
use autonat_project.Base.Text.Laws.{
  IsNumber-AllDigits, AllDigits-Avoids, onto, starts-onto, replace-prefix,
}
use autonat_project.Base.Text.Numbers.{show_ℕ-IsNumber, int_of_text-show_ℕ}
use autonat_project.Base.Split.{join, contains}
use autonat_project.Base.Split.Laws.{not_contained}
use autonat_project.Figures.Names.{numbered, extra_of}

-- The loop over the parts without the test before it gives the same: where the test fails, no part
-- starts with the prefix.
pub numbered_unless :
    (prefix : String) (ps : List String) (found : Option ℤ)
    → All (λ p. starts_with p prefix ≡ false) ps
    → numbered prefix ps found ≡ some found
unfolding numbered
numbered_unless prefix [] found h = refl
numbered_unless prefix (p ∷ ps) found h = rw (numbered, h.0) (numbered_unless prefix ps found h.1)

pub extra_of-numbered :
    (prefix p : String) (ps : List String)
    → extra_of prefix (p ∷ ps) ≡ numbered prefix (p ∷ ps) none
unfolding extra_of
extra_of-numbered prefix p ps = elim (Bool-cases (contains (join "-" (p ∷ ps)) prefix)) [
  | inl e ↦ rw (e) refl
  | inr e ↦ rw (e) (sym (numbered_unless prefix (p ∷ ps) none (not_contained "-" prefix p ps e)))
]

pub numbered-append :
    (prefix : String) (ps qs : List String) (found : Option ℤ)
    → All (λ p. starts_with p prefix ≡ false) ps
    → numbered prefix (ps ++ qs) found ≡ numbered prefix qs found
unfolding numbered
numbered-append prefix [] qs found h = refl
numbered-append prefix (p ∷ ps) qs found h =
    rw (numbered, h.0) (numbered-append prefix ps qs found h.1)

-- A number in the name, where zero is left out.
abbrev pub nonzero : ℕ → Option ℤ
nonzero zero = none
nonzero (suc n) = some (pos (suc n))

abbrev pub flag : String → ℕ → List String
flag prefix zero = []
flag prefix (suc n) = onto prefix (show_ℕ (suc n)) ∷ []

module _ (d : Char) (old : String) (letter : is_digit (code d) ≡ false) where
  pub numbered-flag :
      (n : ℕ) (qs : List String)
      → numbered (String.◌∷◌ d old) (flag (String.◌∷◌ d old) n ++ qs) none
        ≡ numbered (String.◌∷◌ d old) qs (nonzero n)
  unfolding numbered
  numbered-flag zero qs = refl
  numbered-flag (suc n) qs =
      rw
        (
          numbered,
          starts-onto (String.◌∷◌ d old) (show_ℕ (suc n)),
          replace-prefix d old (show_ℕ (suc n)) (
              AllDigits-Avoids (code d) (show_ℕ (suc n)) letter
                (IsNumber-AllDigits (show_ℕ (suc n)) (show_ℕ-IsNumber (suc n)))),
          int_of_text-show_ℕ (suc n),
        )
        refl
