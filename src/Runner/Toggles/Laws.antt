-- ===== src/Runner/Toggles/Laws.antt =====
-- What the loop over the toggles carries out and returns.
use autonat_project.Base.{
  ℕ, ◌+◌, some, List, [], ◌∷◌, map, if◌then◌else◌, ◌≡◌, Bool, true, false, Option, none,
}
use autonat_project.Scenario.Defs.{Toggle}
use autonat_project.Runner.Waits.Laws.{Sleeps}
use autonat_project.Runner.Toggles.{Phase, Outcome}

-- The phases are numbered in order.
abbrev pub IsNumbered : ℕ → List Outcome → Type 0
IsNumbered i [] = Unit
IsNumbered i (r ∷ rs) = (r.phase ≡ i + 1) × IsNumbered (i + 1) rs

-- The toggles up to the first one whose script fails.
abbrev pub tried : (ℕ → Phase) → ℕ → List Toggle → List Toggle
tried world i [] = []
tried world i (t ∷ ts) = t ∷ (if (world i).exec_succeeds then tried world (i + 1) ts else [])

abbrev pub all_succeed : (ℕ → Phase) → ℕ → List Toggle → Bool
all_succeed world i [] = true
all_succeed world i (t ∷ ts) =
    if (world i).exec_succeeds then all_succeed world (i + 1) ts else false

-- What the loop returns from phase `i` on, by whether all scripts succeed: a result for each
-- toggle, or nothing but an exception.
abbrev pub Returns : Bool → ℕ → List Toggle → Option (List Outcome) → Type 0
Returns true i ts o =
    (rs : List Outcome) × (o ≡ some rs)
    × IsNumbered i rs
    × (map (λ (r : Outcome). r.action) rs ≡ map (λ (t : Toggle). t.action) ts)
Returns false i ts o = o ≡ none

-- The clocks of a phase advance by a sleep of three seconds in each round.
abbrev pub PhaseSleeps : Phase → Type 0
PhaseSleeps p = Sleeps p.first_elapsed × Sleeps p.elapsed
