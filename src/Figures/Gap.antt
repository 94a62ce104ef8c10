-- ===== src/Figures/Gap.antt =====
-- `_draw_gap_timeline` and `fig_v1_v2_gap_timeline` of results/generate_figures.py: what is drawn on the
-- lanes of the two versions. Times are integers. `none` is an exception.
pub mod Laws
use autonat_project.Base.{
  ℕ, String, ◌<>◌, ◌==◌, Bool, ◌&&◌, Option, none, some, List, [], ◌∷◌, ◌++◌, map, if◌then◌else◌,
  ◌>>=◌,
}
use autonat_project.Base.Int.{ℤ, pos, ◌+ℤ◌, ◌-ℤ◌, leb_ℤ, ltb_ℤ}
use autonat_project.Base.Show.{show}

-- An entry of `v1_events` or `v2_events`: its time and its state.
abbrev pub LaneEvent : Type 0
LaneEvent = ℤ × String

-- A mark on a lane, with its label.
pub record LaneMark : Type 0 where
  pub t : ℤ
  pub color : String
  pub label : String

-- A coloured part of the lane of v1.
pub record Segment : Type 0 where
  pub from : ℤ
  pub to : ℤ
  pub color : String

pub record GapMark : Type 0 where
  pub from : ℤ
  pub to : ℤ
  pub text : String

abbrev pub color_public : String
color_public = "#4CAF50"

abbrev pub color_private : String
color_private = "#F44336"

abbrev pub v2_color : String → String
v2_color state = if state == "reachable" then color_public else color_private

abbrev pub v1_color : String → String
v1_color state = if state == "public" then color_public else color_private

-- `max`; `none` is the ValueError for no value.
unfoldable pub greatest : List ℤ → Option ℤ
greatest [] = none
greatest (t ∷ ts) = elim (greatest ts) [
  | none ↦ some t
  | some u ↦ some (if ltb_ℤ t u then u else t)
]

unfoldable pub end_of : List LaneEvent → List LaneEvent → Option ℤ → Option ℤ
unfolding greatest
end_of v1_events v2_events (some max_t) = some max_t
end_of v1_events v2_events none = do
  t ← greatest (map (λ e. e.0) v1_events ++ map (λ e. e.0) v2_events)
  some (t +ℤ pos 30)

unfoldable pub v2_marks : List LaneEvent → List LaneMark
unfolding show
v2_marks [] = []
v2_marks ((t, state) ∷ events) =
    record {
      t = t;
      color = v2_color state;
      label =
          (if state == "reachable" then "Reachable" else "Unreachable") <> "\n(" <> show t <> "s)";
    }
    ∷ v2_marks events

-- `v2_reachable_t`, which is also where the stable part begins.
unfoldable pub v2_reachable_t : List LaneEvent → Option ℤ
v2_reachable_t [] = none
v2_reachable_t ((t, state) ∷ events) =
    let rest = v2_reachable_t events in if state == "reachable" then some t else rest

-- `next_t`, by the events that follow.
abbrev pub next_t : ℤ → List LaneEvent → ℤ
next_t max_t [] = max_t -ℤ pos 5
next_t max_t (e ∷ events) = e.0

-- `capitalize` is a parameter.
module _ (capitalize : String → String) where
  unfoldable pub v1_marks : List LaneEvent → List LaneMark
  unfolding show
  v1_marks [] = []
  v1_marks ((t, state) ∷ events) =
      record { t = t; color = v1_color state; label = capitalize state <> "\n(" <> show t <> "s)" }
      ∷ v1_marks events

unfoldable pub v1_segments : ℤ → List LaneEvent → List Segment
unfolding ◌-ℤ◌
v1_segments max_t [] = []
v1_segments max_t ((t, state) ∷ events) =
    record { from = t; to = next_t max_t events; color = v1_color state } ∷ v1_segments max_t events

abbrev pub gap_mark : ℤ → ℤ → GapMark
gap_mark t next = record { from = t; to = next; text = "GAP: " <> show (next -ℤ t) <> "s" }

-- The gaps: v1 is private while v2 is reachable since the given time.
unfoldable pub v1_gaps : ℤ → ℤ → List LaneEvent → List GapMark
unfolding show ◌-ℤ◌
v1_gaps max_t since [] = []
v1_gaps max_t since ((t, state) ∷ events) =
    let rest = v1_gaps max_t since events in
    if state == "private" && leb_ℤ since t then gap_mark t (next_t max_t events) ∷ rest else rest

abbrev pub gaps_since : Option ℤ → ℤ → List LaneEvent → List GapMark
gaps_since none max_t v1_events = []
gaps_since (some since) max_t v1_events = v1_gaps max_t since v1_events

abbrev pub stable_part : ℤ → Option ℤ → Option (ℤ × ℤ)
stable_part max_t none = none
stable_part max_t (some t) = some (t, max_t -ℤ pos 5)

pub record Timeline : Type 0 where
  pub max_t : ℤ
  pub v2_marks : List LaneMark
  pub stable : Option (ℤ × ℤ)
  pub v1_marks : List LaneMark
  pub segments : List Segment
  pub gaps : List GapMark

-- What is drawn up to a given end.
unfoldable pub timeline : (String → String) → List LaneEvent → List LaneEvent → ℤ → Timeline
unfolding v2_marks v2_reachable_t v1_marks v1_segments v1_gaps ◌-ℤ◌
timeline capitalize v1_events v2_events max_t = record {
  max_t = max_t;
  v2_marks = v2_marks v2_events;
  stable = stable_part max_t (v2_reachable_t v2_events);
  v1_marks = v1_marks capitalize v1_events;
  segments = v1_segments max_t v1_events;
  gaps = gaps_since (v2_reachable_t v2_events) max_t v1_events;
}

unfoldable pub draw_gap_timeline :
    (String → String) → List LaneEvent → List LaneEvent → Option ℤ → Option Timeline
unfolding end_of timeline
draw_gap_timeline capitalize v1_events v2_events given = do
  max_t ← end_of v1_events v2_events given
  some (timeline capitalize v1_events v2_events max_t)

-- The events of the three panels.
abbrev pub v1_high : List LaneEvent
v1_high =
    (pos 3, "public")
    ∷ (pos 108, "private")
    ∷ (pos 183, "public")
    ∷ (pos 245, "private")
    ∷ (pos 340, "public")
    ∷ (pos 405, "private")
    ∷ (pos 490, "public")
    ∷ []

abbrev pub v1_med : List LaneEvent
v1_med = (pos 3, "public") ∷ (pos 215, "private") ∷ (pos 310, "public") ∷ (pos 460, "private") ∷ []

abbrev pub v1_low : List LaneEvent
v1_low = (pos 3, "public") ∷ []

abbrev pub v2_events : List LaneEvent
v2_events = (pos 6, "reachable") ∷ []

unfoldable pub panels : (String → String) → Option (List Timeline)
unfolding draw_gap_timeline
panels capitalize = do
  high ← draw_gap_timeline capitalize v1_high v2_events (some (pos 530))
  med ← draw_gap_timeline capitalize v1_med v2_events (some (pos 530))
  low ← draw_gap_timeline capitalize v1_low v2_events (some (pos 530))
  some (high ∷ med ∷ low ∷ [])
