-- ===== src/Nebula/Clients.antt =====
-- `chart_clients` of results/nebula-analysis/plot.py
pub mod Order
pub mod Laws
use autonat_project.Base.{
  ℕ, String, ◌<>◌, ◌==◌, Bool, true, false, not, Option, none, some, List, [], ◌∷◌, ◌>>=◌,
}
use autonat_project.Base.Int.{ℤ, pos, ◌-ℤ◌, ltb_ℤ}
use autonat_project.Base.Show.{show}
use autonat_project.Base.Dict.{lookup}
use autonat_project.Base.Sort.{sort_by}
use autonat_project.Nebula.{Row, int_field, column}

-- The key that the rows are sorted by, `(r["client"] != "kubo", -int(r["total"]))`.
unfoldable pub client_key : Row → Option (Bool × ℤ)
unfolding int_field
client_key r = do
  client ← lookup "client" r
  total ← int_field "total" r
  some (not (client == "kubo"), pos 0 -ℤ total)

-- `<` of two keys: False is less than True.
abbrev pub less_pair : Bool × ℤ → Bool × ℤ → Bool
less_pair (false, m) (true, n) = true
less_pair (true, m) (false, n) = false
less_pair (false, m) (false, n) = ltb_ℤ m n
less_pair (true, m) (true, n) = ltb_ℤ m n

unfoldable pub sorted_clients : List Row → Option (List Row)
unfolding client_key sort_by
sorted_clients rows = sort_by less_pair client_key rows

pub record ClientChart : Type 0 where
  pub clients : List String
  pub totals : List ℤ
  pub dialable : List ℤ
  pub labels : List String

-- The texts beside the bars.
unfoldable pub bar_labels : List ℤ → List ℤ → List String
unfolding show
bar_labels (t ∷ totals) (d ∷ dialable) =
    (show t <> " (" <> show d <> " dialable)") ∷ bar_labels totals dialable
bar_labels _ _ = []

unfoldable pub chart_clients : List Row → Option ClientChart
unfolding sorted_clients column int_field bar_labels
chart_clients rows = do
  sorted ← sorted_clients rows
  clients ← column (lookup "client") sorted
  totals ← column (int_field "total") sorted
  dialable ← column (int_field "dialable") sorted
  some (record {
    clients = clients;
    totals = totals;
    dialable = dialable;
    labels = bar_labels totals dialable;
  })
