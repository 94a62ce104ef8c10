-- ===== src/Nebula/Grid.antt =====
-- `chart_dialability_vs_public` of results/nebula-analysis/plot.py: the grid of deciles, the image
-- that is made of it, and the texts of its cells.
pub mod Cells
pub mod Images
pub mod Texts
pub mod Laws
use autonat_project.Base.{
  ℕ, zero, suc, ◌-◌, ◌*◌, String, ◌<>◌, Bool, Option, none, some, List, [], ◌∷◌, ◌++◌, map, length,
  get_elem?, ltb, leb, if◌then◌else◌, ◌>>=◌,
}
use autonat_project.Base.Int.{ℤ, pos, negsuc, ltb_ℤ, leb_ℤ}
use autonat_project.Base.Show.{show, show_ℕ}
use autonat_project.Nebula.{Row, int_field}

-- The place that a Python index means in a list of this length; `none` is the IndexError.
unfoldable pub place : ℕ → ℤ → Option ℕ
place n (pos i) = if ltb i n then some i else none
place n (negsuc i) = if ltb i n then some (n - suc i) else none

abbrev pub set {ℓ} : {A : Type ℓ} → List A → ℕ → A → List A
set [] i v = []
set (x ∷ xs) zero v = v ∷ xs
set (x ∷ xs) (suc i) v = x ∷ set xs i v

abbrev pub Grid : Type 0
Grid = List (List ℤ)

-- `grid[d][p] = v`
unfoldable pub write : ℤ → ℤ → ℤ → Grid → Option Grid
unfolding place
write d p v grid = do
  i ← place (length grid) d
  row ← get_elem? grid i
  j ← place (length row) p
  some (set grid i (set row j v))

-- `[x] * n`
abbrev pub copies {ℓ} : {A : Type ℓ} → ℕ → A → List A
copies zero x = []
copies (suc n) x = x ∷ copies n x

abbrev pub empty_grid : Grid
empty_grid = copies 11 (copies 11 (pos 0))

-- The loop over the rows.
unfoldable pub fill : List Row → Grid → Option Grid
unfolding write int_field
fill [] grid = some grid
fill (row ∷ rows) grid = do
  d ← int_field "dial_decile" row
  p ← int_field "public_decile" row
  v ← int_field "peers" row
  g ← write d p v grid
  fill rows g

-- `zip(*rows)`
unfoldable pub zip_cons {ℓ} : {A : Type ℓ} → List A → List (List A) → List (List A)
zip_cons (x ∷ xs) (c ∷ cs) = (x ∷ c) ∷ zip_cons xs cs
zip_cons _ _ = []

unfoldable pub zip_rows {ℓ} : {A : Type ℓ} → List (List A) → List (List A)
unfolding zip_cons
zip_rows [] = []
zip_rows (row ∷ []) = map (λ x. x ∷ []) row
zip_rows (row ∷ next ∷ rows) = zip_cons row (zip_rows (next ∷ rows))

unfoldable pub cell {ℓ} : {A : Type ℓ} → List (List A) → ℕ → ℕ → Option A
cell grid d p = do row ← get_elem? grid d; get_elem? row p

-- A text at a place of the chart, with its colour.
pub record CellText : Type 0 where
  pub d : ℕ
  pub p : ℕ
  pub text : String
  pub color : String

-- The body of the two loops over the places.
unfoldable pub text_of : ℕ → ℕ → ℤ → List CellText
unfolding show
text_of d p v =
    if ltb_ℤ (pos 0) v
    then record {
      d = d;
      p = p;
      text = show v;
      color = if leb_ℤ (pos 100) v then "white" else "black";
    }
      ∷ []
    else []

abbrev pub range_11 : List ℕ
range_11 = 0 ∷ 1 ∷ 2 ∷ 3 ∷ 4 ∷ 5 ∷ 6 ∷ 7 ∷ 8 ∷ 9 ∷ 10 ∷ []

-- The inner loop.
unfoldable pub row_texts : Grid → ℕ → List ℕ → Option (List CellText)
unfolding text_of cell
row_texts grid d [] = some []
row_texts grid d (p ∷ ps) = do
  v ← cell grid d p
  texts ← row_texts grid d ps
  some (text_of d p v ++ texts)

-- The outer loop.
unfoldable pub grid_texts : Grid → List ℕ → Option (List CellText)
unfolding row_texts
grid_texts grid [] = some []
grid_texts grid (d ∷ ds) = do
  texts ← row_texts grid d range_11
  rest ← grid_texts grid ds
  some (texts ++ rest)

-- `f"{i*10}%"`
abbrev pub pub_labels : List String
pub_labels = map (λ i. show_ℕ (i * 10) <> "%") range_11

-- `math.log10` of a number above zero, and `float('nan')`, are parameters.
module _ {F : Type 0} (log10 : ℤ → F) (nan : F) where
  abbrev pub log_value : ℤ → F
  log_value v = if ltb_ℤ (pos 0) v then log10 v else nan

  pub record HeatMap : Type 0 where
    pub grid : Grid
    pub image : List (List F)
    pub texts : List CellText

  unfoldable pub chart_dialability_vs_public : List Row → Option HeatMap
  unfolding fill zip_rows grid_texts
  chart_dialability_vs_public rows = do
    grid ← fill rows empty_grid
    texts ← grid_texts grid range_11
    some (record { grid = grid; image = zip_rows (map (map log_value) grid); texts = texts })
