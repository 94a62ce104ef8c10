-- ===== src/Nebula/Protocols/Total.antt =====
-- When `chart_autonat_protocols` draws a chart.
use mathlib.Core.List.{Perm}
use mathlib.Core.List.Perm
use autonat_project.Base.{ℕ, suc, String, ◌≡◌, ◌>>=◌, some, none, Option, List, OneOf}
use autonat_project.Base.Int.{ℤ, pos}
use autonat_project.Base.Dict.{lookup}
use autonat_project.Trace.Attrs.{traverse}
use autonat_project.Nebula.{Row, int_field, column}
use autonat_project.Nebula.Protocols.{order, sorted_categories, sum}

-- A row of one of the four categories with a positive number.
pub record IsProtocolRow (r : Row) : Type 0 where
  pub category : String
  pub known : OneOf category order
  pub has_category : lookup "category" r ≡ some category
  pub less_one : ℕ
  pub has_cnt : int_field "cnt" r ≡ some (pos (suc less_one))

module _ (percentage : ℤ → ℤ → Option String) where
  -- The percentage of one of the numbers is too large for a float.
  abbrev pub IsTooLarge : List Row → Type 0
  IsTooLarge rows =
      (sorted : List Row) × (cnts : List ℤ) × (sorted_categories rows ≡ some sorted)
      × (column (int_field "cnt") sorted ≡ some cnts)
      × (traverse (λ c. percentage c (sum cnts)) cnts ≡ none)
