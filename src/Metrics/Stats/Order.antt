-- ===== src/Metrics/Stats/Order.antt =====
-- `sorted` sorts, and an index into a sorted list respects the order.
use mathlib.Core.Path.{subst}
use autonat_project.Base.{
  ℕ, zero, suc, ◌-◌, ◌≤◌, ◌<◌, ◌≡◌, refl, ◌∙◌, ◌↔◌, some, List, [], ◌∷◌, length, get_elem?, last?,
  All, arith, Bool-cases, inl, inr,
}
use autonat_project.Base.Int.{ℤ, ◌≤ℤ◌, leb_ℤ}
use autonat_project.Metrics.Stats.{insert, sorted}

abbrev pub Below : ℤ → List ℤ → Type 0
Below v ws = All (λ w. v ≤ℤ w) ws

-- Every value is at most those behind it.
abbrev pub IsSorted : List ℤ → Type 0
IsSorted [] = Unit
IsSorted (v ∷ vs) = Below v vs × IsSorted vs

Below-trans : (u v : ℤ) (ws : List ℤ) → u ≤ℤ v → Below v ws → Below u ws
Below-trans u v [] h b = tt
Below-trans u v (w ∷ ws) h (b, bs) = (omega arith, Below-trans u v ws h bs)

Below-insert : (u v : ℤ) (ws : List ℤ) → u ≤ℤ v → Below u ws → Below u (insert v ws)
unfolding insert
Below-insert u v [] h b = (h, tt)
Below-insert u v (w ∷ ws) h (b, bs) = ground (arith, Below-insert u v ws h bs)

insert-IsSorted : (v : ℤ) (ws : List ℤ) → IsSorted ws → IsSorted (insert v ws)
unfolding insert
insert-IsSorted v [] s = (tt, tt)
insert-IsSorted v (w ∷ ws) (b, s) = elim (Bool-cases (leb_ℤ v w)) [
  | inl e ↦ rw e ((ground arith, Below-trans v w ws (ground arith) b), (b, s))
  | inr e ↦ rw e (Below-insert w v ws (ground arith) b, insert-IsSorted v ws s)
]

pub sorted-IsSorted : (vs : List ℤ) → IsSorted (sorted vs)
unfolding sorted
sorted-IsSorted [] = tt
sorted-IsSorted (v ∷ vs) = insert-IsSorted v (sorted vs) (sorted-IsSorted vs)

pub length-sorted : (vs : List ℤ) → length (sorted vs) ≡ length vs
unfolding sorted
length-sorted [] = refl
length-sorted (v ∷ vs) = length-insert v (sorted vs) ∙ omega (arith, length-sorted vs)
  where
    length-insert : (v : ℤ) (ws : List ℤ) → length (insert v ws) ≡ suc (length ws)
    length-insert v [] = refl
    length-insert v (w ∷ ws) = ground (arith, length-insert v ws)

-- What holds of every value holds of every sorted value, and back.
module _ {κ} (P : ℤ → Type κ) where
  All-insert : (v : ℤ) (ws : List ℤ) → (P v × All P ws) ↔ All P (insert v ws)
  unfolding insert
  All-insert v [] = (λ h. h, λ h. h)
  All-insert v (w ∷ ws) = elim (Bool-cases (leb_ℤ v w)) [
    | inl e ↦ rw e (λ h. h, λ h. h)
    | inr e ↦ rw e (
      λ (a, (b, c)). (b, (All-insert v ws).0 (a, c)),
      λ (b, d). let (a, c) = (All-insert v ws).1 d in (a, (b, c)),
    )
  ]

  pub All-sorted : (vs : List ℤ) → All P vs ↔ All P (sorted vs)
  unfolding sorted
  All-sorted [] = (λ h. h, λ h. h)
  All-sorted (v ∷ vs) = (
    λ (h, hs). (All-insert v (sorted vs)).0 (h, (All-sorted vs).0 hs),
    λ h. let (a, b) = (All-insert v (sorted vs)).1 h in (a, (All-sorted vs).1 b),
  )

pub get_elem?_lt :
    {A : Type 0} (xs : List A) (i : ℕ) → i < length xs → (x : A) × (get_elem? xs i ≡ some x)
get_elem?_lt [] i h = absurd (omega arith)
get_elem?_lt (x ∷ xs) zero h = (x, refl)
get_elem?_lt (x ∷ xs) (suc i) h = get_elem?_lt xs i (omega arith)

pub All-get_elem? {κ} :
    (P : ℤ → Type κ) (xs : List ℤ) (i : ℕ) (v : ℤ) → All P xs → get_elem? xs i ≡ some v → P v
All-get_elem? P [] i v h e = cc
All-get_elem? P (x ∷ xs) zero v (h, hs) e = subst P (ground arith) h
All-get_elem? P (x ∷ xs) (suc i) v (h, hs) e = All-get_elem? P xs i v hs e

pub get_elem?-le :
    (xs : List ℤ) (i j : ℕ) (v w : ℤ)
    → IsSorted xs
    → i ≤ j
    → get_elem? xs i ≡ some v
    → get_elem? xs j ≡ some w
    → v ≤ℤ w
get_elem?-le [] i j v w s h e f = cc
get_elem?-le (x ∷ xs) zero zero v w s h e f = ground arith
get_elem?-le (x ∷ xs) zero (suc j) v w (b, s) h e f =
    ground (arith, All-get_elem? (λ w. x ≤ℤ w) xs j w b f)
get_elem?-le (x ∷ xs) (suc i) zero v w s h e f = absurd (omega arith)
get_elem?-le (x ∷ xs) (suc i) (suc j) v w (b, s) h e f = get_elem?-le xs i j v w s (omega arith) e f

pub last?-get_elem? : (xs : List ℤ) → last? xs ≡ get_elem? xs (length xs - 1)
unfolding last?
last?-get_elem? [] = refl
last?-get_elem? (x ∷ []) = refl
last?-get_elem? (x ∷ y ∷ xs) = last?-get_elem? (y ∷ xs) ∙ ground arith
