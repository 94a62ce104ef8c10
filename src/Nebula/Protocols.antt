-- ===== src/Nebula/Protocols.antt =====
-- `chart_autonat_protocols` of results/nebula-analysis/plot.py
pub mod Laws
pub mod Total
use autonat_project.Base.{
  ℕ, ◌*◌, ◌+◌, suc, String, ◌==◌, Bool, Option, none, some, List, [], ◌∷◌, ltb, if◌then◌else◌,
  ◌>>=◌,
}
use autonat_project.Base.Int.{ℤ, pos, negsuc, ◌+ℤ◌}
use autonat_project.Base.Dict.{Dict, lookup}
use autonat_project.Base.Sort.{sort_by}
use autonat_project.Nebula.{Row, int_field, column, index}

abbrev pub order : List String
order = "v1 only" ∷ "v1 + v2" ∷ "v2 only" ∷ "neither" ∷ []

abbrev pub colors : Dict String
colors =
    ("v1 only", "#94a3b8")
    ∷ ("v1 + v2", "#3b82f6")
    ∷ ("v2 only", "#10b981")
    ∷ ("neither", "#ef4444")
    ∷ []

-- `order.index(r["category"])`
unfoldable pub category_key : Row → Option ℕ
unfolding index
category_key r = do category ← lookup "category" r; index category order

unfoldable pub sorted_categories : List Row → Option (List Row)
unfolding category_key sort_by
sorted_categories rows = sort_by ltb category_key rows

unfoldable pub bar_colors : List String → Option (List String)
unfolding lookup
bar_colors [] = some []
bar_colors (c ∷ cats) = do color ← lookup c colors; rest ← bar_colors cats; some (color ∷ rest)

-- `sum`
unfoldable pub sum : List ℤ → ℤ
unfolding ◌+ℤ◌
sum [] = pos 0
sum (c ∷ cnts) = c +ℤ sum cnts

-- The ValueError of `max` on an empty list.
abbrev pub non_empty {ℓ} : {A : Type ℓ} → List A → Option (List A)
non_empty [] = none
non_empty (x ∷ xs) = some (x ∷ xs)

-- `pcts` are floats, each by its `repr`.
pub record ProtocolChart : Type 0 where
  pub cats : List String
  pub cnts : List ℤ
  pub bar_colors : List String
  pub pcts : List String

-- `percentage c total` is the float `c * 100.0 / total`, where `total` is not 0; `none` is the
-- OverflowError of a number that is too large for a float.
module _ (percentage : ℤ → ℤ → Option String) where
  -- The percentage of each bar; `none` is that exception, or the ZeroDivisionError.
  unfoldable pub percents : List ℤ → ℤ → Option (List String)
  percents [] total = some []
  percents (c ∷ cnts) (pos ℕ.zero) = none
  percents (c ∷ cnts) total = do
    pct ← percentage c total
    rest ← percents cnts total
    some (pct ∷ rest)

  unfoldable pub chart_autonat_protocols : List Row → Option ProtocolChart
  unfolding sorted_categories column int_field bar_colors sum percents
  chart_autonat_protocols rows = do
    sorted ← sorted_categories rows
    cats ← column (lookup "category") sorted
    cnts ← column (int_field "cnt") sorted
    drawn ← bar_colors cats
    pcts ← percents cnts (sum cnts)
    bars ← non_empty cnts
    some (record { cats = cats; cnts = bars; bar_colors = drawn; pcts = pcts })
