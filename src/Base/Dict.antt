-- ===== src/Base/Dict.antt =====
-- Python's `dict` with string keys, in insertion order. A write to a key that is there keeps its
-- place, as in Python.
use Prim.Native.String.{String}
use mathlib.Core.Path.{◌≡◌, refl}
use mathlib.Core.Option.{Option, none, some}
use mathlib.Core.List.{List, [], ◌∷◌}
use native.Mathlib.Omega.{arith}
use text.Mathlib.Text.{◌==◌}
use text.Mathlib.TextEquality.{eq_iff}
use autonat_project.Base.Tests.{if◌then◌else◌}

abbrev pub Dict {ℓ} : Type ℓ → Type ℓ
Dict V = List (String × V)

module _ {ℓ} {V : Type ℓ} where
  -- `d.get(k)`
  unfoldable pub lookup : String → Dict V → Option V
  lookup k [] = none
  lookup k ((j, v) ∷ d) = if j == k then some v else lookup k d

  -- `d[k] = v`
  unfoldable pub insert : String → V → Dict V → Dict V
  insert k v [] = (k, v) ∷ []
  insert k v ((j, w) ∷ d) = if j == k then (j, v) ∷ d else (j, w) ∷ insert k v d

  -- One assignment after another.
  unfoldable pub insert_all : Dict V → Dict V → Dict V
  insert_all [] d = d
  insert_all ((k, v) ∷ new) d = insert_all new (insert k v d)

  -- The value of the last pair with the key.
  unfoldable pub last_value : String → Dict V → Option V
  last_value k [] = none
  last_value k ((j, v) ∷ d) = elim (last_value k d) [
    | some w ↦ some w
    | none ↦ if j == k then some v else none
  ]

  pub lookup-insert :
      (k j : String) (v : V) (d : Dict V)
      → lookup j (insert k v d) ≡ (if k == j then some v else lookup j d)
  unfolding lookup insert
  lookup-insert k j v [] = refl
  lookup-insert k j v ((i, w) ∷ d) =
      ground (arith, eq_iff k j, eq_iff i k, eq_iff i j, lookup-insert k j v d)

  abbrev pub or_else : Option V → Option V → Option V
  or_else (some v) o = some v
  or_else none o = o

  -- After a run of assignments a key has the last value assigned to it, or keeps its own.
  pub lookup-insert_all :
      (j : String) (new d : Dict V)
      → lookup j (insert_all new d) ≡ or_else (last_value j new) (lookup j d)
  unfolding insert_all last_value
  lookup-insert_all j [] d = refl
  lookup-insert_all j ((k, v) ∷ new) d =
      ground (arith, lookup-insert_all j new (insert k v d), lookup-insert k j v d)

  -- From an empty dict, it has just the last value assigned to it.
  pub lookup-insert_all_new :
      (j : String) (new : Dict V) → lookup j (insert_all new []) ≡ last_value j new
  unfolding lookup
  lookup-insert_all_new j new = ground (arith, lookup-insert_all j new [])
