-- ===== src/Scenario/Filter.antt =====
-- `apply_filter` of testbed/run.py. What `str(getattr(s, k, ""))` gives is a parameter.
pub mod Laws
use autonat_project.Base.{
  String, Bool, true, false, Option, none, some, List, [], ◌∷◌, ◌==◌, ◌>>=◌, if◌then◌else◌,
}
use autonat_project.Base.Dict.{Dict, insert}
use autonat_project.Base.Split.{split, split_once}
use autonat_project.Scenario.Defs.{Scenario}

-- The loop over the pairs; `none` is the ValueError for a pair without "=".
unfoldable pub parse_pairs : List String → Dict String → Option (Dict String)
parse_pairs [] filters = some filters
parse_pairs (pair ∷ pairs) filters = do
  (k, v) ← split_once b'=' pair
  parse_pairs pairs (insert k v filters)

-- `filters`, from the text of the option.
unfoldable pub parse_filters : String → Option (Dict String)
unfolding parse_pairs
parse_filters filter_str = parse_pairs (split b',' filter_str) []

module _ (attribute : Scenario → String → String) where
  -- The inner loop, which leaves at the first difference.
  unfoldable pub is_match : Dict String → Scenario → Bool
  is_match [] s = true
  is_match ((k, v) ∷ filters) s =
      let rest = is_match filters s in if attribute s k == v then rest else false

  unfoldable pub matching : Dict String → List Scenario → List Scenario
  unfolding is_match
  matching filters [] = []
  matching filters (s ∷ scenarios) =
      let result = matching filters scenarios in if is_match filters s then s ∷ result else result

  unfoldable pub apply_filter : List Scenario → String → Option (List Scenario)
  unfolding matching
  apply_filter scenarios filter_str =
      if filter_str == ""
      then some scenarios
      else (do filters ← parse_filters filter_str; some (matching filters scenarios))
