-- ===== src/Figures/Impact/Laws.antt =====
-- The points of a line: each time stands at the place of its condition.
use autonat_project.Base.{
  ℕ, suc, ◌≡◌, refl, ap, String, Bool, Option, none, some, List, [], ◌∷◌, map, length,
}
use autonat_project.Base.Always.{Always, Always-bind, Always-some}
use autonat_project.Json.{Json, Python}
use autonat_project.Trace.Attrs.{traverse}
use autonat_project.Figures.Conditions.{Condition, Directories}
use autonat_project.Figures.Impact.{Place, plot_places, plot_vals, Line, impact_value, impact_line}

abbrev pub zip {ℓ κ} : {A : Type ℓ} {B : Type κ} → List A → List B → List (A × B)
zip (x ∷ xs) (y ∷ ys) = (x, y) ∷ zip xs ys
zip _ _ = []

-- The values that there are, each with its place.
abbrev pub points {ℓ} : {V : Type ℓ} → List Place → List (Option V) → List (ℕ × V)
points (p ∷ axis) (some v ∷ vals) = (p.0, v) ∷ points axis vals
points (p ∷ axis) (none ∷ vals) = points axis vals
points _ _ = []

-- Each condition has its value.
abbrev pub AreValues : {A B : Type 0} → (A → Option B) → List A → List B → Type 0
AreValues f [] [] = Unit
AreValues f (x ∷ xs) [] = ⊥
AreValues f [] (y ∷ ys) = ⊥
AreValues f (x ∷ xs) (y ∷ ys) = (f x ≡ some y) × AreValues f xs ys

traverse-AreValues :
    {A B : Type 0} (f : A → Option B) (xs : List A) → Always (AreValues f xs) (traverse f xs)
unfolding traverse
traverse-AreValues f [] = Always-some _ [] tt
traverse-AreValues f (x ∷ xs) = Always-bind _ (f x) _ (λ y e.
    Always-bind _ (traverse f xs) _
      (λ ys h. Always-some _ (y ∷ ys) (e, traverse-AreValues f xs ys h)))

-- What a line shows: the values of all its conditions, without those that are missing.
pub record IsLine (value : Condition → Option (Option Json)) (axis : List Place) (line : Line)
    : Type 0 where
  pub found : List (Option Json)
  pub values : AreValues (λ (p : Place). value p.1) axis found
  pub points : zip line.places line.vals ≡ points axis found
  pub paired : length line.places ≡ length line.vals

module _ (value : Condition → Option (Option Json)) where
  zip-plots :
      (axis : List Place) (vals : List (Option Json))
      → AreValues (λ (p : Place). value p.1) axis vals
      → zip (plot_places (map (λ (p : Place). p.0) axis) vals) (plot_vals vals) ≡ points axis vals
  unfolding plot_places plot_vals
  zip-plots [] [] h = refl
  zip-plots [] (v ∷ vals) h = elim h [ ]
  zip-plots (p ∷ axis) [] h = refl
  zip-plots (p ∷ axis) (none ∷ vals) (h, hs) = zip-plots axis vals hs
  zip-plots (p ∷ axis) (some v ∷ vals) (h, hs) = ap (◌∷◌ (p.0, v)) (zip-plots axis vals hs)

  length-plots :
      (axis : List Place) (vals : List (Option Json))
      → AreValues (λ (p : Place). value p.1) axis vals
      → length (plot_places (map (λ (p : Place). p.0) axis) vals) ≡ length (plot_vals vals)
  unfolding plot_places plot_vals
  length-plots [] [] h = refl
  length-plots [] (v ∷ vals) h = elim h [ ]
  length-plots (p ∷ axis) [] h = elim h [ ]
  length-plots (p ∷ axis) (none ∷ vals) (h, hs) = length-plots axis vals hs
  length-plots (p ∷ axis) (some v ∷ vals) (h, hs) = ap suc (length-plots axis vals hs)

-- When no file raises an exception, a line has as many places as values, and its points are the
-- conditions of the axis that have a time, each with its own.
pub impact_line_lem :
    (py : Python) (to_float : Json → Option Json) (less : Json → Json → Bool) (dirs : Directories)
    (axis : List Place) (transport nat : String)
    → Always
        (IsLine (impact_value py to_float less dirs transport nat) axis)
        (impact_line py to_float less dirs axis transport nat)
unfolding impact_line
impact_line_lem py to_float less dirs axis transport nat =
    let value = impact_value py to_float less dirs transport nat in
    Always-bind _ (traverse (λ (p : Place). value p.1) axis) _ (λ vals e.
      let all = traverse-AreValues (λ (p : Place). value p.1) axis vals e in
      Always-some _ _ (record {
        found = vals;
        values = all;
        points = zip-plots value axis vals all;
        paired = length-plots value axis vals all;
      }))
