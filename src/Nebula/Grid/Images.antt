-- ===== src/Nebula/Grid/Images.antt =====
-- The image is the grid with its axes exchanged.
use autonat_project.Base.{
  ℕ, zero, suc, ◌<◌, ◌≡◌, refl, sym, ◌∙◌, some, List, [], ◌∷◌, map, All, length, get_elem?, arith,
  length-map,
}
use autonat_project.Nebula.Grid.Cells.{get_elem?-some}
use autonat_project.Nebula.Grid.{zip_cons, zip_rows, cell}

module _ {A : Type 0} where
  get_elem?-zip_cons :
      (xs : List A) (cs : List (List A)) (p : ℕ) (x : A) (c : List A)
      → get_elem? xs p ≡ some x
      → get_elem? cs p ≡ some c
      → get_elem? (zip_cons xs cs) p ≡ some (x ∷ c)
  unfolding zip_cons
  get_elem?-zip_cons [] cs p x c e f = cc
  get_elem?-zip_cons (y ∷ xs) [] p x c e f = cc
  get_elem?-zip_cons (y ∷ xs) (k ∷ cs) zero x c e f = cc
  get_elem?-zip_cons (y ∷ xs) (k ∷ cs) (suc p) x c e f = get_elem?-zip_cons xs cs p x c e f

  get_elem?-map :
      {B : Type 0} (f : A → B) (xs : List A) (i : ℕ) (x : A)
      → get_elem? xs i ≡ some x
      → get_elem? (map f xs) i ≡ some (f x)
  get_elem?-map f [] i x e = cc
  get_elem?-map f (y ∷ xs) zero x e = cc
  get_elem?-map f (y ∷ xs) (suc i) x e = get_elem?-map f xs i x e

  -- A column of `zip(*rows)`.
  abbrev IsColumn : List (List A) → ℕ → List A → Type 0
  IsColumn rows p c = (d : ℕ) → get_elem? c d ≡ cell rows d p

  IsColumn-cons :
      (row : List A) (rows : List (List A)) (p : ℕ) (x : A) (c : List A)
      → get_elem? row p ≡ some x
      → IsColumn rows p c
      → IsColumn (row ∷ rows) p (x ∷ c)
  unfolding cell
  IsColumn-cons row rows p x c e h zero = sym e
  IsColumn-cons row rows p x c e h (suc d) = h d

  zip_rows-IsColumn :
      (n p : ℕ) (row : List A) (rows : List (List A))
      → All (λ r. length r ≡ n) (row ∷ rows)
      → p < n
      → (c : List A) × (get_elem? (zip_rows (row ∷ rows)) p ≡ some c) × IsColumn (row ∷ rows) p c
  unfolding zip_rows
  zip_rows-IsColumn n p row [] (h, hs) less =
      let (x, e) = get_elem?-some row p (omega arith) in
      (
        x ∷ [],
        get_elem?-map (λ y. y ∷ []) row p x e,
        IsColumn-cons row [] p x [] e (λ d. unfold cell in refl),
      )
  zip_rows-IsColumn n p row (next ∷ rows) (h, hs) less =
      let (x, e) = get_elem?-some row p (omega arith) in
      let (c, f, column) = zip_rows-IsColumn n p next rows hs less in
      (
        x ∷ c,
        get_elem?-zip_cons row (zip_rows (next ∷ rows)) p x c e f,
        IsColumn-cons row (next ∷ rows) p x c e column,
      )

  zip_rows-cell :
      (n d p : ℕ) (rows : List (List A)) (v : A)
      → All (λ r. length r ≡ n) rows
      → p < n
      → cell rows d p ≡ some v
      → cell (zip_rows rows) p d ≡ some v
  unfolding cell
  zip_rows-cell n d p [] v h less e = cc
  zip_rows-cell n d p (row ∷ rows) v h less e =
      let (c, f, column) = zip_rows-IsColumn n p row rows h less in rw f (column d ∙ e)

  -- The places of a grid after a function on its numbers.
  map-cell :
      {B : Type 0} (f : A → B) (rows : List (List A)) (d p : ℕ) (v : A)
      → cell rows d p ≡ some v
      → cell (map (map f) rows) d p ≡ some (f v)
  unfolding cell
  map-cell f [] d p v e = cc
  map-cell f (row ∷ rows) zero p v e = get_elem?-map f row p v e
  map-cell f (row ∷ rows) (suc d) p v e = map-cell f rows d p v e

  All-length-map :
      {B : Type 0} (f : A → B) (n : ℕ) (rows : List (List A))
      → All (λ r. length r ≡ n) rows
      → All (λ r. length r ≡ n) (map (map f) rows)
  All-length-map f n [] h = tt
  All-length-map f n (row ∷ rows) (h, hs) = (length-map f row ∙ h, All-length-map f n rows hs)

-- A place of the image shows the number at the exchanged place of the grid.
pub image_lem :
    {A B : Type 0} (f : A → B) (n d p : ℕ) (grid : List (List A)) (v : A)
    → All (λ r. length r ≡ n) grid
    → p < n
    → cell grid d p ≡ some v
    → cell (zip_rows (map (map f) grid)) p d ≡ some (f v)
image_lem f n d p grid v h less e =
    zip_rows-cell n d p (map (map f) grid) (f v) (All-length-map f n grid h) less
      (map-cell f grid d p v e)
