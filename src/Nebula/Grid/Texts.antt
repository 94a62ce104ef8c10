-- ===== src/Nebula/Grid/Texts.antt =====
-- The texts of the heat map's cells.
use autonat_project.Base.{
  ℕ, ◌<◌, ◌≡◌, refl, ◌∙◌, All, inl, inr, Bool, true, false, ◌&&◌, ◌||◌, Option, none, some, List,
  [], ◌∷◌, ◌++◌, arith, eqb, if◌then◌else◌, Bool-cases,
}
use autonat_project.Base.Int.{ℤ, pos, ltb_ℤ, leb_ℤ}
use autonat_project.Base.Show.{show}
use autonat_project.Nebula.Grid.{Grid, cell, CellText, text_of, range_11, row_texts, grid_texts}

-- The text at a place, with its colour: of the first entry for that place.
abbrev pub text_at : ℕ → ℕ → List CellText → Option CellText
text_at d p [] = none
text_at d p (t ∷ ts) = if eqb t.d d && eqb t.p p then some t else text_at d p ts

-- What a number above 0 is shown as; from 100 on it is written in white.
abbrev pub shown : ℕ → ℕ → ℤ → Option CellText
shown d p v =
    if ltb_ℤ (pos 0) v
    then some (record {
      d = d;
      p = p;
      text = show v;
      color = if leb_ℤ (pos 100) v then "white" else "black";
    })
    else none

abbrev or_else : Option CellText → Option CellText → Option CellText
or_else none o = o
or_else (some t) o = some t

text_at-append :
    (d p : ℕ) (ts us : List CellText)
    → text_at d p (ts ++ us) ≡ or_else (text_at d p ts) (text_at d p us)
text_at-append d p [] us = refl
text_at-append d p (t ∷ ts) us = elim (Bool-cases (eqb t.d d && eqb t.p p)) [
  | inl e ↦ rw e refl
  | inr e ↦ rw e (text_at-append d p ts us)
]

abbrev no_text : Option CellText
no_text = none

if_none : (b : Bool) → no_text ≡ (if b then no_text else no_text)
if_none true = refl
if_none false = refl

text_at-text_of :
    (d p i j : ℕ) (v : ℤ)
    → text_at d p (text_of i j v) ≡ (if eqb i d && eqb j p then shown i j v else none)
unfolding text_of
text_at-text_of d p i j v = elim (Bool-cases (ltb_ℤ (pos 0) v)) [
  | inl e ↦ rw e refl
  | inr e ↦ rw e (if_none (eqb i d && eqb j p))
]

-- A number is in a list.
abbrev has : ℕ → List ℕ → Bool
has p [] = false
has p (j ∷ js) = eqb j p || has p js

or_else-same : (b : Bool) (o : Option CellText) → or_else o (if b then o else none) ≡ o
or_else-same true none = refl
or_else-same true (some t) = refl
or_else-same false none = refl
or_else-same false (some t) = refl

has-range_11 : (p : ℕ) → p < 11 → has p range_11 ≡ true
has-range_11 p h = ground arith

module _ (g : Grid) (number : ℕ → ℕ → ℤ)
    (full : (i j : ℕ) → i < 11 → j < 11 → cell g i j ≡ some (number i j)) (d p : ℕ) where
  -- The text at the place, if the loops come there.
  abbrev expected : Bool → Option CellText
  expected b = if b then shown d p (number d p) else none

  or_else-row :
      (i j : ℕ) (b : Bool)
      → or_else
          (if eqb i d && eqb j p then shown i j (number i j) else none)
          (expected (eqb i d && b))
        ≡ expected (eqb i d && (eqb j p || b))
  or_else-row i j b = elim (Bool-cases (eqb i d)) [
    | inr e ↦ rw e refl
    | inl e ↦ elim (Bool-cases (eqb j p)) [
      | inr f ↦ rw (e, f) refl
      | inl f ↦
          let i-eq : i ≡ d = ground arith in
          let j-eq : j ≡ p = ground arith in
          rw (e, f) (rw (i-eq, j-eq) (or_else-same b (shown d p (number d p))))
    ]
  ]

  expected-false : (b : Bool) → no_text ≡ expected (b && false)
  expected-false true = refl
  expected-false false = refl

  row_texts_lem :
      (i : ℕ) (ps : List ℕ)
      → i < 11
      → All (λ j. j < 11) ps
      → (ts : List CellText) × (row_texts g i ps ≡ some ts)
        × (text_at d p ts ≡ expected (eqb i d && has p ps))
  unfolding row_texts
  row_texts_lem i [] hi hs = ([], refl, expected-false (eqb i d))
  row_texts_lem i (j ∷ ps) hi (h, hs) =
      let (ts, e, at) = row_texts_lem i ps hi hs in
      (
        text_of i j (number i j) ++ ts,
        rw (full i j hi h) (rw e refl),
        text_at-append d p (text_of i j (number i j)) ts
            ∙ rw (text_at-text_of d p i j (number i j)) (rw at (or_else-row i j (has p ps))),
      )

  range_11-small : All (λ j. j < 11) range_11
  range_11-small = omega arith

  -- The entries of a row and those of the rows behind it.
  or_else-rows :
      (e a b : Bool) → or_else (expected (e && a)) (expected (b && a)) ≡ expected ((e || b) && a)
  or_else-rows false a b = refl
  or_else-rows true true true = or_else-same true (shown d p (number d p))
  or_else-rows true true false = or_else-same false (shown d p (number d p))
  or_else-rows true false true = refl
  or_else-rows true false false = refl

  grid_texts-at :
      (ds : List ℕ)
      → All (λ i. i < 11) ds
      → (ts : List CellText) × (grid_texts g ds ≡ some ts)
        × (text_at d p ts ≡ expected (has d ds && has p range_11))
  unfolding grid_texts
  grid_texts-at [] h = ([], refl, refl)
  grid_texts-at (i ∷ ds) (h, hs) =
      let (ts, e, at) = row_texts_lem i range_11 h range_11-small in
      let (us, f, above) = grid_texts-at ds hs in
      (
        ts ++ us,
        rw e (rw f refl),
        text_at-append d p ts us
            ∙ rw at (rw above (or_else-rows (eqb i d) (has p range_11) (has d ds))),
      )

  -- The loops over the places of a full grid raise no exception, and the text at a place is that of
  -- its number.
  pub grid_texts_lem :
      d < 11
      → p < 11
      → (ts : List CellText) × (grid_texts g range_11 ≡ some ts)
        × (text_at d p ts ≡ shown d p (number d p))
  grid_texts_lem hd hp =
      let (ts, e, at) = grid_texts-at range_11 range_11-small in
      (ts, e, at ∙ rw (has-range_11 d hd, has-range_11 p hp) refl)
