-- ===== src/Base/Sort.antt =====
-- `list.sort(key=f)` and `sorted(xs, key=f)`: an insertion from the end of the list, which is stable as
-- Python's sort is. The order of the keys is a Boolean test.
pub mod Laws
use mathlib.Core.Bool.{Bool}
use mathlib.Core.Option.{Option, none, some}
use mathlib.Core.List.{List, [], ◌∷◌, map}
use autonat_project.Base.{if◌then◌else◌, ◌>>=◌}

module _ {ℓ} {A : Type ℓ} (less : A → A → Bool) where
  -- `v` stands before the items that are not less.
  unfoldable pub insert : A → List A → List A
  insert v [] = v ∷ []
  insert v (w ∷ ws) = if less w v then w ∷ insert v ws else v ∷ w ∷ ws

  unfoldable pub sort : List A → List A
  unfolding insert
  sort [] = []
  sort (v ∷ vs) = insert v (sort vs)

module _ {ℓ κ} {A : Type ℓ} {K : Type κ} where
  -- The items with their keys; `none` is an exception of the key function.
  unfoldable pub with_keys : (A → Option K) → List A → Option (List (K × A))
  with_keys key [] = some []
  with_keys key (x ∷ xs) = do k ← key x; rest ← with_keys key xs; some ((k, x) ∷ rest)

  abbrev pub less_key : (K → K → Bool) → K × A → K × A → Bool
  less_key less p q = less p.0 q.0

  unfoldable pub sort_by : (K → K → Bool) → (A → Option K) → List A → Option (List A)
  unfolding with_keys sort
  sort_by less key xs = do
    keyed ← with_keys key xs
    some (map (λ p. p.1) (sort (less_key less) keyed))
