-- ===== src/Figures/Names.antt =====
-- `parse_scenario_name` of results/generate_figures.py. The outer `none` is the ValueError of `int`.
pub mod Laws
pub mod Parts
pub mod Plain
pub mod RoundTrip
use Prim.Native.String.{String}
use autonat_project.Base.{
  ◌≡◌, refl, Option, none, some, List, [], ◌∷◌, ◌==◌, starts_with, if◌then◌else◌, ◌>>=◌,
}
use autonat_project.Base.Int.{ℤ, pos}
use autonat_project.Base.Text.{replace, int_of_text, strip}
use autonat_project.Base.Split.{split, join, contains}

-- The dict `extra`.
pub record Extra : Type 0 where
  pub latency_ms : Option ℤ
  pub loss_pct : Option ℤ

abbrev pub no_extra : Extra
no_extra = record { latency_ms = none; loss_pct = none }

-- `parts[1:]`, also of `parts[1:]` itself.
abbrev rest_of : List String → List String
rest_of [] = []
rest_of (p ∷ ps) = ps

-- The NAT type, and `rest`, by the first part.
unfoldable pub nat_and_rest : List String → Option (String × List String)
nat_and_rest [] = none
nat_and_rest (first ∷ parts) =
    if first == "none"
    then some ("none", parts)
    else if first == "full"
    then some ("full-cone", rest_of parts)
    else if first == "address"
    then some ("address-restricted", rest_of parts)
    else if first == "port"
    then some ("port-restricted", rest_of parts)
    else if first == "symmetric"
    then some ("symmetric", parts)
    else none

abbrev number_in : String → String → Option ℤ → Option (Option ℤ)
number_in prefix p found =
    if starts_with p prefix
    then (do n ← int_of_text (replace prefix "" p); some (some n))
    else some found

-- The loop over the parts with one of the two prefixes: the last one wins.
unfoldable pub numbered : String → List String → Option ℤ → Option (Option ℤ)
numbered prefix [] found = some found
numbered prefix (p ∷ ps) found = do now ← number_in prefix p found; numbered prefix ps now

-- The loop under its test.
unfoldable pub extra_of : String → List String → Option (Option ℤ)
unfolding numbered
extra_of prefix parts =
    if contains (join "-" parts) prefix then numbered prefix parts none else some none

abbrev transport_of : List String → String
transport_of [] = "?"
transport_of (t ∷ rest) = t

-- `None, None, {}` is the inner `none`.
unfoldable pub parse_scenario_name : String → Option (Option (String × String × Extra))
unfolding nat_and_rest extra_of
parse_scenario_name fname = elim (nat_and_rest (split b'-' (replace ".json" "" fname))) [
  | none ↦ some none
  | some (nat, rest) ↦ (do
    latency ← extra_of "lat" (rest_of rest)
    loss ← extra_of "loss" (rest_of rest)
    some (some (nat, transport_of rest, record { latency_ms = latency; loss_pct = loss })))
]

names_run :
    (parse_scenario_name "full-cone-tcp-7-lat10.json"
      ≡ some (some ("full-cone", "tcp", record { latency_ms = some (pos 10); loss_pct = none })))
    × (parse_scenario_name "none-quic-7-loss5-lat10.json"
        ≡ some
            (some ("none", "quic", record { latency_ms = some (pos 10); loss_pct = some (pos 5) })))
    × (parse_scenario_name "toggle-port-restricted-tcp-lat10.json" ≡ some none)
unfolding parse_scenario_name split replace join contains int_of_text strip
names_run = (refl, refl, refl)
