-- ===== src/Metrics/Update.antt =====
-- `compute_time_to_update`
pub mod Laws
use autonat_project.Base.{
  ℕ, ◌+◌, Bool, true, false, String, Option, none, some, List, [], ◌∷◌, ◌++◌, length, if◌then◌else◌,
}
use autonat_project.Base.Int.{ℤ}
use autonat_project.Json.{Python}
use autonat_project.Trace.Attrs.{Event}
use autonat_project.Trace.Parse.{Trace}
use autonat_project.Metrics.Events.{Traces, session_events, lists_some, elapsed_ms}

-- "reachable→unreachable" and "unreachable→reachable"
pub data Direction : Type 0 where
  lost gained : Direction

pub record Flip : Type 0 where
  pub elapsed_ms : ℤ
  pub direction : Direction

pub record Update : Type 0 where
  pub total : ℕ
  pub no_flip_detected : ℕ
  pub flips : List Flip

-- `prev_reachable is not None and is_reachable != prev_reachable`
abbrev pub differs : Option Bool → Bool → Bool
differs none now = false
differs (some true) now = if now then false else true
differs (some false) now = now

-- The direction by `prev_reachable`.
abbrev pub direction_from : Option Bool → Direction
direction_from (some true) = lost
direction_from _ = gained

-- The branch behind the loop.
abbrev pub note_flip : Option Flip → Update → Update
note_flip (some f) u = record u { flips = u.flips ++ f ∷ [] }
note_flip none u = record u { no_flip_detected = u.no_flip_detected + 1 }

module _ (py : Python) where
  abbrev pub is_reachable : Event → Bool
  is_reachable e = lists_some py "reachable" e

  -- The loop over a trace's events. It breaks off at a change whose time is an integer.
  unfoldable pub flip_loop : List Event → Option Bool → Option Flip
  flip_loop [] prev = none
  flip_loop (e ∷ es) prev =
      let rest = flip_loop es (some (is_reachable e)) in
      if differs prev (is_reachable e)
      then elim (elapsed_ms py e) [
        | some t ↦ some (record { elapsed_ms = t; direction = direction_from prev })
        | none ↦ rest
      ]
      else rest

  abbrev pub flip_of : Trace → Option Flip
  flip_of t = flip_loop (session_events t "reachable_addrs_changed") none

  unfoldable pub update_loop : Traces → Update → Update
  unfolding flip_loop
  update_loop [] u = u
  update_loop ((path, t) ∷ rest) u = update_loop rest (note_flip (flip_of t) u)

  unfoldable pub compute_time_to_update : Traces → Update
  unfolding update_loop
  compute_time_to_update traces =
      update_loop traces (record { total = length traces; no_flip_detected = 0; flips = [] })
