-- ===== src/Base/Split.antt =====
-- Python's `s.split(sep)`, `s.split(sep, 1)` and `os.path.join`, for a separator of one character.
pub mod Laws
use Prim.Native.Nat.{ℕ}
use Prim.Native.Char.{Char, code}
use Prim.Native.String.{String, ◌++◌ as ◌<>◌}
use text.Mathlib.Text.{◌==◌, starts_with}
use mathlib.Core.Path.{◌≡◌, refl}
use mathlib.Core.Bool.{Bool, true, false}
use mathlib.Core.Option.{Option, none, some}
use mathlib.Core.List.{List, [], ◌∷◌}
use autonat_project.Base.Tests.{eqb, if◌then◌else◌}

-- The character in front of the first part.
in_first : Char → List String → List String
in_first c [] = []
in_first c (part ∷ parts) = String.◌∷◌ c part ∷ parts

-- `s.split(sep)`
unfoldable pub split : ℕ → String → List String
unfolding in_first
split sep String.[] = "" ∷ []
split sep (String.◌∷◌ c s) =
    let parts = split sep s in if eqb (code c) sep then "" ∷ parts else in_first c parts

in_key : Char → Option (String × String) → Option (String × String)
in_key c none = none
in_key c (some (k, v)) = some (String.◌∷◌ c k, v)

-- `k, v = s.split(sep, 1)`: `none` is the ValueError when the separator does not occur.
unfoldable pub split_once : ℕ → String → Option (String × String)
unfolding in_key
split_once sep String.[] = none
split_once sep (String.◌∷◌ c s) =
    let cut = split_once sep s in if eqb (code c) sep then some ("", s) else in_key c cut

-- `sep.join(parts)`
unfoldable pub join : String → List String → String
join sep [] = ""
join sep (p ∷ []) = p
join sep (p ∷ q ∷ parts) = p <> sep <> join sep (q ∷ parts)

-- `sub in s`
unfoldable pub contains : String → String → Bool
contains String.[] sub = starts_with String.[] sub
contains (String.◌∷◌ c s) sub =
    let later = contains s sub in if starts_with (String.◌∷◌ c s) sub then true else later

-- `s.endswith(suffix)`
unfoldable pub ends_with : String → String → Bool
ends_with String.[] suffix = suffix == ""
ends_with (String.◌∷◌ c s) suffix =
    let later = ends_with s suffix in if String.◌∷◌ c s == suffix then true else later

ends_in : ℕ → String → Bool
ends_in k String.[] = false
ends_in k (String.◌∷◌ c String.[]) = eqb (code c) k
ends_in k (String.◌∷◌ c (String.◌∷◌ d s)) = ends_in k (String.◌∷◌ d s)

-- `os.path.join(a, b)`
unfoldable pub path_join : String → String → String
unfolding ends_in
path_join String.[] b = b
path_join (String.◌∷◌ c s) b =
    let a = String.◌∷◌ c s in
    if starts_with b "/" then b else if ends_in b'/' a then a <> b else a <> "/" <> b

split_runs :
    (split b',' "a=1,b=2," ≡ "a=1" ∷ "b=2" ∷ "" ∷ [])
    × (split_once b'=' "a=1=2" ≡ some ("a", "1=2"))
    × (path_join "r" "x.json" ≡ "r/x.json")
unfolding split split_once path_join
split_runs = (refl, refl, refl)
