-- ===== src/Figures/Detection/Laws.antt =====
-- The matrix of the detection figure against the counts of the summary figure.
use autonat_project.Base.{
  ◌≡◌, refl, ◌+◌, Bool, true, false, not, List, [], ◌∷◌, Bool-cases, inl, inr,
}
use autonat_project.Json.{is_text}
use autonat_project.Figures.{Reachability}
use autonat_project.Figures.Rates.{Counts, count_one, v1_detected}
use autonat_project.Figures.Detection.{Cell, not_triggered, correct, detected_state, cell_of}

-- What the first counts of version 1 make of a cell's file: a node that was not detected counts as
-- detected as private, and so does any state but "public".
abbrev pub counted_as : Bool → Cell → Counts → Counts
counted_as true (correct b) c = record c { tp = c.tp + 1 }
counted_as true other c = record c { fn = c.fn + 1 }
counted_as false not_triggered c = record c { tn = c.tn + 1 }
counted_as false (correct b) c = record c { tn = c.tn + 1 }
counted_as false other c = record c { fp = c.fp + 1 }

-- The first event, if there is one, says one of the two states.
abbrev pub SaysState : List Reachability → Type 0
SaysState [] = Unit
SaysState (e ∷ evts) = is_text "public" e.reachability ≡ not (is_text "private" e.reachability)

-- For a file whose first event, if there is one, says "public" or "private", the summary figure counts
-- what the detection figure shows: a true positive for a correct reachable cell, a false positive for
-- a false positive; a node that was not triggered is a false negative when it is reachable, and a
-- true negative otherwise.
pub cell_of-count_one :
    (expected : Bool) (evts : List Reachability) (c : Counts)
    → SaysState evts
    → count_one expected (v1_detected evts) c
      ≡ counted_as expected (cell_of expected (detected_state evts)) c
unfolding cell_of v1_detected
cell_of-count_one true [] c h = refl
cell_of-count_one false [] c h = refl
cell_of-count_one true (e ∷ evts) c h = elim (Bool-cases (is_text "public" e.reachability)) [
  | inl p ↦ rw p refl
  | inr p ↦ rw p refl
]
cell_of-count_one false (e ∷ evts) c h = elim (Bool-cases (is_text "private" e.reachability)) [
  | inl p ↦ rw (h, p) refl
  | inr p ↦ rw (h, p) refl
]
