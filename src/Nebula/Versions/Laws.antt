-- ===== src/Nebula/Versions/Laws.antt =====
-- Where the line for version 0.34 is drawn.
use autonat_project.Base.{
  ℕ, zero, suc, ◌<◌, ◌≡◌, ◌≢◌, ap, inl, inr, String, ◌==◌, eq_iff, Option, none, some, List, [],
  ◌∷◌, All, get_elem?, arith, Bool-cases, ◌>>=◌,
}
use autonat_project.Nebula.{index}
use autonat_project.Nebula.Versions.{v2_introduced}

-- The first place of a text in a list, where it has one.
abbrev pub IsFirst : String → List String → Option ℕ → Type 0
IsFirst x xs none = All (λ y. y ≢ x) xs
IsFirst x xs (some i) = (get_elem? xs i ≡ some x) × ((j : ℕ) → j < i → get_elem? xs j ≢ some x)

not_before :
    (x y : String) (xs : List String) (i : ℕ)
    → y ≢ x
    → ((j : ℕ) → j < i → get_elem? xs j ≢ some x)
    → (j : ℕ) → j < suc i
    → get_elem? (y ∷ xs) j ≢ some x
not_before x y xs i other none_before zero h = λ same. other (cc same)
not_before x y xs i other none_before (suc j) h = none_before j (omega arith)

IsFirst-cons :
    (x y : String) (xs : List String) (o : Option ℕ)
    → y ≢ x
    → IsFirst x xs o
    → IsFirst x (y ∷ xs) (o >>= λ i. some (suc i))
IsFirst-cons x y xs none other h = (other, h)
IsFirst-cons x y xs (some i) other (at, before) = (at, not_before x y xs i other before)

index-IsFirst : (x : String) (xs : List String) → IsFirst x xs (index x xs)
unfolding index
index-IsFirst x [] = tt
index-IsFirst x (y ∷ xs) = elim (Bool-cases (y == x)) [
  | inl e ↦ rw e (ap some ((eq_iff y x).0 e), λ j h. absurd (omega arith))
  | inr e ↦
      let other : y ≢ x = λ same. cc ((eq_iff y x).1 same) in
      rw e (IsFirst-cons x y xs (index x xs) other (index-IsFirst x xs))
]

-- The line is drawn before the first bar of version 0.34, and is not drawn where no bar is for that
-- version.
pub v2_introduced_lem : (versions : List String) → IsFirst "0.34" versions (v2_introduced versions)
unfolding v2_introduced
v2_introduced_lem versions = index-IsFirst "0.34" versions
