-- ===== src/Figures/Gap/Laws.antt =====
-- What is drawn on the lane of v1, and which parts of it are gaps.
use autonat_project.Base.{◌≡◌, ◌⊎◌, ◌==◌, Bool, ◌&&◌, Option, none, some, List, [], ◌∷◌, map, keep}
use autonat_project.Base.Int.{ℤ, pos, ◌-ℤ◌, leb_ℤ}
use autonat_project.Figures.Gap.{
  LaneEvent, Segment, GapMark, color_private, v2_reachable_t, gap_mark, Timeline,
}

-- Each part ends where the next one begins, and the last one at the end.
abbrev pub AreTiled : ℤ → List Segment → Type 0
AreTiled last [] = Unit
AreTiled last (s ∷ []) = s.to ≡ last
AreTiled last (s ∷ r ∷ segments) = (s.to ≡ r.from) × AreTiled last (r ∷ segments)

-- The states of v1.
abbrev pub IsState : LaneEvent → Type 0
IsState e = (e.1 ≡ "public") ⊎ (e.1 ≡ "private")

-- A red part that begins at this time or later.
abbrev pub is_gap : ℤ → Segment → Bool
is_gap since s = s.color == color_private && leb_ℤ since s.from

abbrev pub mark_of : Segment → GapMark
mark_of s = gap_mark s.from s.to

-- The parts that begin at the time since which v2 is reachable, if it is.
abbrev pub expected_gaps : Option ℤ → List Segment → List GapMark
expected_gaps none segments = []
expected_gaps (some since) segments = map mark_of (keep (is_gap since) segments)

-- What is drawn for these events.
pub record IsTimeline (v1_events v2_events : List LaneEvent) (tl : Timeline) : Type 0 where
  pub starts : map (λ (s : Segment). s.from) tl.segments ≡ map (λ e. e.0) v1_events
  pub tiled : AreTiled (tl.max_t -ℤ pos 5) tl.segments
  pub gaps : tl.gaps ≡ expected_gaps (v2_reachable_t v2_events) tl.segments

-- There is no end to be found.
abbrev pub IsEmpty : List LaneEvent → List LaneEvent → Option ℤ → Type 0
IsEmpty v1_events v2_events given = (given ≡ none) × (v1_events ≡ []) × (v2_events ≡ [])
