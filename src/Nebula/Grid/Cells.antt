-- ===== src/Nebula/Grid/Cells.antt =====
-- The cells of the grid after the loop over the rows.
use mathlib.Core.Path.{subst}
use autonat_project.Base.{
  ℕ, zero, suc, ◌<◌, ◌≡◌, refl, inl, inr, ◌∙◌, ap, Bool, true, false, ◌&&◌, Option, some, List, [],
  ◌∷◌, All, length, get_elem?, eqb, lt→ltb, if◌then◌else◌, arith, Bool-cases,
}
use autonat_project.Base.Int.{ℤ, pos}
use autonat_project.Nebula.{Row, int_field}
use autonat_project.Nebula.Grid.{place, set, Grid, write, copies, empty_grid, fill, cell}

-- What a row writes.
pub record Cell : Type 0 where
  pub d : ℕ
  pub p : ℕ
  pub peers : ℤ

-- A row with two deciles from 0 to 10.
pub record IsGridRow (r : Row) (c : Cell) : Type 0 where
  pub dial : int_field "dial_decile" r ≡ some (pos c.d)
  pub public : int_field "public_decile" r ≡ some (pos c.p)
  pub number : int_field "peers" r ≡ some c.peers
  pub dial_small : c.d < 11
  pub public_small : c.p < 11

abbrev pub AreGridRows : List Row → List Cell → Type 0
AreGridRows [] [] = Unit
AreGridRows [] (c ∷ cs) = ⊥
AreGridRows (r ∷ rows) [] = ⊥
AreGridRows (r ∷ rows) (c ∷ cs) = IsGridRow r c × AreGridRows rows cs

-- The number of the last of these cells at a place, or else the number that was there.
abbrev pub latest : ℕ → ℕ → List Cell → ℤ → ℤ
latest d p [] v = v
latest d p (c ∷ cs) v = latest d p cs (if eqb c.d d && eqb c.p p then c.peers else v)

-- As many rows as columns.
abbrev pub IsSquare : {A : Type 0} → ℕ → List (List A) → Type 0
IsSquare n grid = (length grid ≡ n) × All (λ row. length row ≡ n) grid

module _ {A : Type 0} where
  pub length-set : (xs : List A) (i : ℕ) (v : A) → length (set xs i v) ≡ length xs
  length-set [] i v = refl
  length-set (x ∷ xs) zero v = refl
  length-set (x ∷ xs) (suc i) v = ap suc (length-set xs i v)

  pub get_elem?-set :
      (xs : List A) (i j : ℕ) (v : A)
      → i < length xs
      → get_elem? (set xs i v) j ≡ (if eqb i j then some v else get_elem? xs j)
  get_elem?-set [] i j v h = absurd (omega arith)
  get_elem?-set (x ∷ xs) zero zero v h = refl
  get_elem?-set (x ∷ xs) zero (suc j) v h = ground arith
  get_elem?-set (x ∷ xs) (suc i) zero v h = ground arith
  get_elem?-set (x ∷ xs) (suc i) (suc j) v h = get_elem?-set xs i j v (omega arith) ∙ ground arith

  pub get_elem?-some : (xs : List A) (i : ℕ) → i < length xs → (x : A) × (get_elem? xs i ≡ some x)
  get_elem?-some [] i h = absurd (omega arith)
  get_elem?-some (x ∷ xs) zero h = (x, refl)
  get_elem?-some (x ∷ xs) (suc i) h = get_elem?-some xs i (omega arith)

  module _ (P : A → Type 0) where
    pub All-get_elem? : (xs : List A) (i : ℕ) {x : A} → All P xs → get_elem? xs i ≡ some x → P x
    All-get_elem? [] i h e = cc
    All-get_elem? (x ∷ xs) zero (h, hs) e = subst P (cc) h
    All-get_elem? (x ∷ xs) (suc i) (h, hs) e = All-get_elem? xs i hs e

    pub All-set : (xs : List A) (i : ℕ) (v : A) → All P xs → P v → All P (set xs i v)
    All-set [] i v h k = tt
    All-set (x ∷ xs) zero v (h, hs) k = (k, hs)
    All-set (x ∷ xs) (suc i) v (h, hs) k = (h, All-set xs i v hs k)

place_lem : (n i : ℕ) → i < n → place n (pos i) ≡ some i
unfolding place
place_lem n i h = rw (lt→ltb i n h)

-- The grid after a write within its bounds.
abbrev Written : ℕ → ℕ → ℕ → ℤ → Grid → Grid → Type 0
Written n d p v g g' = (i j : ℕ) → cell g' i j ≡ (if eqb d i && eqb p j then some v else cell g i j)

module _ (n d p : ℕ) (v : ℤ) (g : Grid) (square : IsSquare n g) (hd : d < n) (hp : p < n) where
  cell-set :
      (row : List ℤ)
      → get_elem? g d ≡ some row
      → length row ≡ n
      → Written n d p v g (set g d (set row p v))
  unfolding cell
  cell-set row e len i j = elim (Bool-cases (eqb d i)) [
    | inl same ↦
        let i-eq : d ≡ i = ground arith in
        rw (get_elem?-set g d i (set row p v) (omega arith))
          (rw same (rw (get_elem?-set row p j v (omega arith)) (rw (← i-eq) (rw e refl))))
    | inr other ↦ rw (get_elem?-set g d i (set row p v) (omega arith)) (rw other refl)
  ]

  write_lem :
      (g' : Grid) × (write (pos d) (pos p) v g ≡ some g') × IsSquare n g' × Written n d p v g g'
  unfolding write
  write_lem =
      let (row, e) = get_elem?-some g d (omega arith) in
      let len = All-get_elem? (λ r. length r ≡ n) g d square.1 e in
      (
        set g d (set row p v),
        rw (square.0, write)
            (rw (place_lem n d hd) (rw e (rw (len, place) (rw (lt→ltb p n hp) refl)))),
        (
          length-set g d (set row p v) ∙ square.0,
          All-set (λ r. length r ≡ n) g d (set row p v) square.1 (length-set row p v ∙ len),
        ),
        cell-set row e len,
      )

if-some :
    {A : Type 0} (b : Bool) {o : Option A} (a v : A)
    → o ≡ some v
    → (if b then some a else o) ≡ some (if b then a else v)
if-some true a v e = refl
if-some false a v e = e

-- The grid after the writes of some cells.
fill-latest :
    (rows : List Row) (cs : List Cell) (g : Grid)
    → AreGridRows rows cs
    → IsSquare 11 g
    → (g' : Grid) × (fill rows g ≡ some g')
      × IsSquare 11 g'
      × ((i j : ℕ) (v : ℤ) → cell g i j ≡ some v → cell g' i j ≡ some (latest i j cs v))
unfolding fill
fill-latest [] [] g h square = (g, refl, square, λ i j v e. e)
fill-latest [] (c ∷ cs) g h square = elim h [ ]
fill-latest (r ∷ rows) [] g h square = elim h [ ]
fill-latest (r ∷ rows) (c ∷ cs) g (h, hs) square =
    let (g₁, e₁, square₁, at₁) =
      write_lem 11 c.d c.p c.peers g square h.dial_small h.public_small in
    let (g₂, e₂, square₂, at₂) = fill-latest rows cs g₁ hs square₁ in
    (
      g₂,
      rw h.dial (rw h.public (rw h.number (rw e₁ e₂))),
      square₂,
      λ i j v e.
          at₂ i j (if eqb c.d i && eqb c.p j then c.peers else v)
            (at₁ i j ∙ if-some (eqb c.d i && eqb c.p j) c.peers v e),
    )

get_elem?-copies : {A : Type 0} (n : ℕ) (x : A) (i : ℕ) → i < n → get_elem? (copies n x) i ≡ some x
get_elem?-copies zero x i h = absurd (omega arith)
get_elem?-copies (suc n) x zero h = refl
get_elem?-copies (suc n) x (suc i) h = get_elem?-copies n x i (omega arith)

cell-copies :
    {A : Type 0} (m n : ℕ) (x : A) (d p : ℕ)
    → d < m
    → p < n
    → cell (copies m (copies n x)) d p ≡ some x
unfolding cell
cell-copies m n x d p hd hp = rw (get_elem?-copies m (copies n x) d hd) (get_elem?-copies n x p hp)

-- The loop over the rows raises no exception on rows with deciles from 0 to 10, and each cell has the
-- number of the last row with its deciles, or 0.
pub fill_lem :
    (rows : List Row) (cs : List Cell)
    → AreGridRows rows cs
    → (g : Grid) × (fill rows empty_grid ≡ some g)
      × IsSquare 11 g
      × ((d p : ℕ) → d < 11 → p < 11 → cell g d p ≡ some (latest d p cs (pos 0)))
fill_lem rows cs h =
    let (g, e, square, at) = fill-latest rows cs empty_grid h (
      refl,
      (refl, (refl, (refl, (refl, (refl, (refl, (refl, (refl, (refl, (refl, (refl, tt))))))))))),
    ) in
    (g, e, square, λ d p hd hp. at d p (pos 0) (cell-copies 11 11 (pos 0) d p hd hp))
