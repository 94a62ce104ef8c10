-- ===== src/Agreement/Toggles.antt =====
-- The file of toggle results that testbed/run.py writes, in the timeline of
-- results/generate_figures.py.
use autonat_project.Base.{ℕ, String, ◌≡◌, refl, ap, some, List, [], ◌∷◌, map, eq_iff}
use autonat_project.Base.Int.{ℤ}
use autonat_project.Base.Dict.{lookup, lookup-insert}
use autonat_project.Base.Split.{join}
use autonat_project.Base.Text.{replace}
use autonat_project.Json.{Json, list, items, elements, field?, iterate, Python}
use autonat_project.Trace.Attrs.{traverse}
use autonat_project.Runner.Toggles.{Outcome}
use autonat_project.Runner.Effects.{World, done, write_file}
use autonat_project.Runner.Run.{Seen, outcome_json, save_toggles}
use autonat_project.Figures.Timeline.{Toggled, toggled_of, read_toggles, marks, toggle_detect_pairs}
use autonat_project.Figures.Timeline.Laws.{due_from, toggle_detect_pairs-marks}

-- What the figure reads of a result.
abbrev pub of_outcome : Outcome → Toggled
of_outcome r = record { action = r.action; time_to_detect_s = r.time_to_detect_s }

elements-items : (vs : List Json) → elements (items vs) ≡ vs
elements-items [] = refl
elements-items (v ∷ vs) = ap (λ t. v ∷ t) (elements-items vs)

traverse-outcomes :
    (utc : ℕ → String) (rs : List Outcome)
    → traverse toggled_of (map (outcome_json utc) rs) ≡ some (map of_outcome rs)
unfolding traverse toggled_of outcome_json field?
traverse-outcomes utc [] = refl
traverse-outcomes utc (r ∷ rs) = rw (traverse-outcomes utc rs) refl

-- The file that is written for results of toggles holds one text. Where JSON is read back as it was
-- written, the figure takes from it the actions and the times of all results in order, also of
-- those that were not detected, and draws one arrow for each, which starts half a minute after the
-- one before it has ended and is as long as the result's time.
pub read_toggles-save_toggles :
    (py : Python) (pretty : Json → String) (str_int : ℤ → String) (path : String) (o : Seen)
    (r : Outcome) (rs : List Outcome) (w : World)
    → py.loads (pretty (list (items (map (outcome_json o.toggle_utc) (r ∷ rs)))))
      ≡ some (list (items (map (outcome_json o.toggle_utc) (r ∷ rs))))
    → (saved : World) × (lines : List String) × (toggles : List Toggled) × (save_toggles py pretty
          str_int path o
          (r ∷ rs)
          w
        ≡ (done tt, saved))
      × (lookup (replace ".json" ".toggles.json" path) saved.files ≡ some lines)
      × (read_toggles py lines ≡ some toggles)
      × (toggles ≡ map of_outcome (r ∷ rs))
      × (toggle_detect_pairs (marks toggles) ≡ due_from 0 (map of_outcome (r ∷ rs)))
unfolding save_toggles write_file read_toggles join iterate
read_toggles-save_toggles py pretty str_int path o r rs w h =
    let file = replace ".json" ".toggles.json" path in
    let vs = map (outcome_json o.toggle_utc) (r ∷ rs) in
    (
      _,
      pretty (list (items vs)) ∷ [],
      map of_outcome (r ∷ rs),
      refl,
      rw (lookup-insert, (eq_iff file file).1 refl) refl,
      rw (h, elements-items) (traverse-outcomes o.toggle_utc (r ∷ rs)),
      refl,
      toggle_detect_pairs-marks (map of_outcome (r ∷ rs)),
    )
