-- ===== src/Base/Lists.antt =====
-- Lists over the native numbers, and Python's list built-ins that the programs use.
use Prim.Native.Nat.{ℕ, zero, suc, ◌+◌, ◌≤◌}
use mathlib.Core.Path.{◌≡◌, refl}
use mathlib.Core.Logic.{◌⊎◌, inl, inr}
use mathlib.Core.Bool.{Bool, false, ◌||◌}
use mathlib.Core.Option.{Option, none, some}
use mathlib.Core.List.{List, [], ◌∷◌, ◌++◌, map}
use native.Mathlib.Omega.{arith}
use autonat_project.Base.Tests.{if◌then◌else◌}

module _ {ℓ} {A : Type ℓ} where
  abbrev pub length : List A → ℕ
  length [] = 0
  length (x ∷ xs) = suc (length xs)

  abbrev pub get_elem? : List A → ℕ → Option A
  get_elem? [] i = none
  get_elem? (x ∷ xs) zero = some x
  get_elem? (x ∷ xs) (suc i) = get_elem? xs i

  -- `[x for x in xs if p(x)]`
  unfoldable pub keep : (A → Bool) → List A → List A
  keep p [] = []
  keep p (x ∷ xs) = let rest = keep p xs in if p x then x ∷ rest else rest

  -- `any(p(x) for x in xs)`
  unfoldable pub any : (A → Bool) → List A → Bool
  any p [] = false
  any p (x ∷ xs) = p x || any p xs

  -- `sum(1 for x in xs if p(x))`
  unfoldable pub count : (A → Bool) → List A → ℕ
  count p [] = 0
  count p (x ∷ xs) = (if p x then 1 else 0) + count p xs

  -- `xs[-1]` on a list that may be empty
  unfoldable pub last? : List A → Option A
  last? [] = none
  last? (x ∷ []) = some x
  last? (x ∷ y ∷ xs) = last? (y ∷ xs)

  -- A predicate of every element.
  abbrev pub All {κ} : (A → Type κ) → List A → Type κ
  All P [] = Unit
  All P (x ∷ xs) = P x × All P xs

  pub length-append : (xs ys : List A) → length (xs ++ ys) ≡ length xs + length ys
  length-append [] ys = omega arith
  length-append (x ∷ xs) ys = omega (arith, length-append xs ys)

  pub count-le-length : (p : A → Bool) (xs : List A) → count p xs ≤ length xs
  unfolding count
  count-le-length p [] = omega arith
  count-le-length p (x ∷ xs) = ground (arith, count-le-length p xs)

  pub any-append : (p : A → Bool) (xs ys : List A) → any p (xs ++ ys) ≡ (any p xs || any p ys)
  unfolding any
  any-append p [] ys = refl
  any-append p (x ∷ xs) ys = ground (arith, any-append p xs ys)

-- `x` is one of the items, with its place.
abbrev pub OneOf : {A : Type 0} → A → List A → Type 0
OneOf x [] = ⊥
OneOf x (y ∷ ys) = (x ≡ y) ⊎ OneOf x ys

pub OneOf-append_left : {A : Type 0} (x : A) (xs ys : List A) → OneOf x xs → OneOf x (xs ++ ys)
OneOf-append_left x [] ys h = elim h [ ]
OneOf-append_left x (y ∷ xs) ys (inl e) = inl e
OneOf-append_left x (y ∷ xs) ys (inr h) = inr (OneOf-append_left x xs ys h)

pub OneOf-append_right : {A : Type 0} (x : A) (xs ys : List A) → OneOf x ys → OneOf x (xs ++ ys)
OneOf-append_right x [] ys h = h
OneOf-append_right x (y ∷ xs) ys h = inr (OneOf-append_right x xs ys h)

pub OneOf-append :
    {A : Type 0} (x : A) (xs ys : List A) → OneOf x (xs ++ ys) → OneOf x xs ⊎ OneOf x ys
OneOf-append x [] ys h = inr h
OneOf-append x (y ∷ xs) ys (inl e) = inl (inl e)
OneOf-append x (y ∷ xs) ys (inr h) = elim (OneOf-append x xs ys h) [
  | inl m ↦ inl (inr m)
  | inr m ↦ inr m
]

module _ {ℓ κ} {A : Type ℓ} {B : Type κ} where
  pub length-map : (f : A → B) (xs : List A) → length (map f xs) ≡ length xs
  length-map f [] = refl
  length-map f (x ∷ xs) = omega (arith, length-map f xs)

pub OneOf-All : {A : Type 0} (P : A → Type 0) (x : A) (xs : List A) → OneOf x xs → All P xs → P x
OneOf-All P x [] h all = elim h [ ]
OneOf-All P x (y ∷ ys) (inl e) all = rw (e) (all.0)
OneOf-All P x (y ∷ ys) (inr h) all = OneOf-All P x ys h all.1
