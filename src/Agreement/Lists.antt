-- ===== src/Agreement/Lists.antt =====
-- `any` over lists that are mapped, filtered or hold one item at most.
use autonat_project.Base.{
  ◌≡◌, refl, ap, ◌≤◌, Bool, false, ◌&&◌, ◌||◌, Option, none, some, List, [], ◌∷◌, map, any, keep,
  last?, arith, length, ltb,
}

module _ {ℓ} {A : Type ℓ} where
  pub any-map {κ} :
      {B : Type κ} (p : B → Bool) (f : A → B) (xs : List A)
      → any p (map f xs) ≡ any (λ x. p (f x)) xs
  unfolding any
  any-map p f [] = refl
  any-map p f (x ∷ xs) = ap (λ b. p (f x) || b) (any-map p f xs)

  pub any-keep : (p q : A → Bool) (xs : List A) → any p (keep q xs) ≡ any (λ x. q x && p x) xs
  unfolding any keep
  any-keep p q [] = refl
  any-keep p q (x ∷ xs) = ground (arith, any-keep p q xs)

  pub any-same : (p q : A → Bool) (xs : List A) → ((x : A) → p x ≡ q x) → any p xs ≡ any q xs
  unfolding any
  any-same p q [] h = refl
  any-same p q (x ∷ xs) h = ground (arith, h x, any-same p q xs h)

  pub keep-any : (p : A → Bool) (xs : List A) → ltb 0 (length (keep p xs)) ≡ any p xs
  unfolding any keep
  keep-any p [] = refl
  keep-any p (x ∷ xs) = ground (arith, keep-any p xs)

  -- What holds of the last item of a list of one item at most holds of all its items.
  abbrev pub last_has : (A → Bool) → Option A → Bool
  last_has p none = false
  last_has p (some x) = p x

  pub any-last : (p : A → Bool) (xs : List A) → length xs ≤ 1 → any p xs ≡ last_has p (last? xs)
  unfolding any last?
  any-last p [] h = refl
  any-last p (x ∷ []) h = ground arith
  any-last p (x ∷ y ∷ xs) h = absurd (omega arith)
