-- ===== src/Nebula.antt =====
-- The data of the charts of results/nebula-analysis/plot.py: what is computed from the rows of each
-- CSV file and drawn. `none` is an exception. The CSV reader and the drawing are not modelled.
pub mod Clients
pub mod Protocols
pub mod Versions
pub mod Dialable
pub mod Grid
pub mod Charts
use autonat_project.Base.{
  ℕ, suc, ◌+◌, String, ◌==◌, Option, none, some, List, [], ◌∷◌, if◌then◌else◌, ◌>>=◌,
}
use autonat_project.Base.Int.{ℤ}
use autonat_project.Base.Dict.{Dict, lookup}
use autonat_project.Base.Text.{int_of_text}

-- A row of `csv.DictReader`: its values by the names of the columns.
abbrev pub Row : Type 0
Row = Dict String

-- `int(r[key])`
unfoldable pub int_field : String → Row → Option ℤ
int_field key r = do v ← lookup key r; int_of_text v

-- `[r[key] for r in rows]` and the like
unfoldable pub column {ℓ} : {B : Type ℓ} → (Row → Option B) → List Row → Option (List B)
column field [] = some []
column field (r ∷ rows) = do v ← field r; vs ← column field rows; some (v ∷ vs)

-- The place of `x` in the list: `xs.index(x)`, where `none` is the ValueError.
unfoldable pub index : String → List String → Option ℕ
index x [] = none
index x (y ∷ ys) = if y == x then some 0 else (do i ← index x ys; some (suc i))
