-- ===== src/Figures/Timeline/Laws.antt =====
-- The arrows of the timeline are the toggles' detection times.
use autonat_project.Base.{ℕ, ◌+◌, ◌-◌, String, ◌≡◌, refl, some, List, [], ◌∷◌, arith}
use autonat_project.Figures.Timeline.{
  Toggled, Mark, new_state, start_mark, detected_mark, marks_from, marks, toggle_detect_pairs,
}

-- The pairs that the toggles call for.
abbrev pub due_from : ℕ → List Toggled → List (ℕ × ℕ × ℕ)
due_from t [] = []
due_from t (tg ∷ toggles) =
    (t + 30, t + 30 + tg.time_to_detect_s, tg.time_to_detect_s)
    ∷ due_from (t + 30 + tg.time_to_detect_s) toggles

minus_left : (a b : ℕ) → a + b - a ≡ b
minus_left a b = omega arith

pairs_from :
    (m : Mark) (state : String) (t : ℕ) (toggles : List Toggled)
    → m.state ≡ some state
    → toggle_detect_pairs (m ∷ marks_from t toggles) ≡ due_from t toggles
unfolding toggle_detect_pairs marks_from
pairs_from m state t [] h = refl
pairs_from m state t (tg ∷ toggles) h =
    rw
      (
        h,
        minus_left (t + 30) tg.time_to_detect_s,
        pairs_from (detected_mark (t + 30 + tg.time_to_detect_s) tg) (new_state tg.action)
            (t + 30 + tg.time_to_detect_s) toggles refl,
      )
      refl

-- There is one arrow for each toggle, in order: it starts half a minute after the one before it has
-- ended, and is as long as the toggle took to be detected.
pub toggle_detect_pairs-marks :
    (toggles : List Toggled) → toggle_detect_pairs (marks toggles) ≡ due_from 0 toggles
unfolding marks
toggle_detect_pairs-marks toggles = pairs_from start_mark "unreachable" 0 toggles refl
