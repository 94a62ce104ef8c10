-- ===== src/Metrics/Confidence.antt =====
-- `compute_time_to_confidence`
pub mod Laws
use autonat_project.Base.{
  ℕ, ◌+◌, Bool, true, false, String, Option, none, some, List, [], ◌∷◌, ◌++◌, length, if◌then◌else◌,
  ◌>>=◌, ◌&&◌,
}
use autonat_project.Base.Int.{ℤ}
use autonat_project.Json.{Python}
use autonat_project.Trace.Attrs.{Event}
use autonat_project.Trace.Parse.{Trace}
use autonat_project.Metrics.Events.{Traces, session_events, lists_some, elapsed_ms}
use autonat_project.Metrics.Stats.{Stats, stats}

abbrev pub is_none {ℓ} : {A : Type ℓ} → Option A → Bool
is_none none = true
is_none (some a) = false

-- The variables `ttc_reachable` and `ttc_unreachable`.
pub record Times : Type 0 where
  pub reachable : Option ℤ
  pub unreachable : Option ℤ

-- The lists and the counter of the loop over the traces.
pub record Outcomes : Type 0 where
  pub reachable_times : List ℤ
  pub unreachable_times : List ℤ
  pub no_convergence : ℕ

pub record Confidence : Type 0 where
  pub total : ℕ
  pub no_convergence : ℕ
  pub reachable : Option Stats
  pub unreachable : Option Stats

-- The branch behind the loop.
unfoldable pub record_outcome : Times → Outcomes → Outcomes
record_outcome ts o = elim ts.reachable [
  | some t ↦ record o { reachable_times = o.reachable_times ++ t ∷ [] }
  | none ↦ elim ts.unreachable [
    | some t ↦ record o { unreachable_times = o.unreachable_times ++ t ∷ [] }
    | none ↦ record o { no_convergence = o.no_convergence + 1 }
  ]
]

module _ (py : Python) where
  -- One of the two tests in the loop over a trace's events.
  unfoldable pub first_time : String → Option ℤ → Event → Option ℤ
  first_time key found e = if is_none found && lists_some py key e then elapsed_ms py e else found

  -- The loop over a trace's events.
  unfoldable pub ttc_loop : List Event → Times → Times
  unfolding first_time
  ttc_loop [] ts = ts
  ttc_loop (e ∷ es) ts = ttc_loop es (record {
    reachable = first_time "reachable" ts.reachable e;
    unreachable = first_time "unreachable" ts.unreachable e;
  })

  abbrev pub times : Trace → Times
  times t =
      ttc_loop (session_events t "reachable_addrs_changed")
        (record { reachable = none; unreachable = none })

  unfoldable pub traces_loop : Traces → Outcomes → Outcomes
  unfolding record_outcome ttc_loop
  traces_loop [] o = o
  traces_loop ((path, t) ∷ rest) o = traces_loop rest (record_outcome (times t) o)

  abbrev pub outcomes : Traces → Outcomes
  outcomes traces =
      traces_loop traces
        (record { reachable_times = []; unreachable_times = []; no_convergence = 0 })

  -- `none` is an exception of `stats`.
  unfoldable pub compute_time_to_confidence : Traces → Option Confidence
  unfolding traces_loop stats
  compute_time_to_confidence traces = do
    let o = outcomes traces
    reachable ← stats py o.reachable_times
    unreachable ← stats py o.unreachable_times
    some (record {
      total = length traces;
      no_convergence = o.no_convergence;
      reachable = reachable;
      unreachable = unreachable;
    })
