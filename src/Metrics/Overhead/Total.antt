-- ===== src/Metrics/Overhead/Total.antt =====
-- `compute_protocol_overhead` of testbed/analyze.py: the bytes of all probes of all sessions.
pub mod Accounts
pub mod Laws
use autonat_project.Base.{
  ℕ, zero, suc, ◌+◌, ◌*◌, Bool, Option, none, some, List, [], ◌∷◌, ◌++◌, length, last?, get_elem?,
  if◌then◌else◌, ◌>>=◌,
}
use autonat_project.Base.Int.{ℤ, pos, ◌+ℤ◌, ltb_ℤ}
use autonat_project.Json.{Json, Python}
use autonat_project.Trace.Attrs.{Event}
use autonat_project.Trace.Parse.{Trace, Activity}
use autonat_project.Metrics.Events.{Traces, session_events, elapsed_ms}
use autonat_project.Metrics.Rates.{Ratio}
use autonat_project.Metrics.Stats.{sorted, p95_idx}
use autonat_project.Metrics.Overhead.{Estimate, probe_byte_estimate}

-- The lists and counters of the function.
pub record Tally : Type 0 where
  pub probe_counts : List ℤ
  pub cycle_counts : List ℤ
  pub session_durations_ms : List ℤ
  pub protocol_bytes : List ℤ
  pub amplification_bytes : List ℤ
  pub total_bytes : List ℤ
  pub session_bytes : List ℤ
  pub triggered : ℕ
  pub total_probes : ℕ

abbrev pub empty_tally : Tally
empty_tally = record {
  probe_counts = [];
  cycle_counts = [];
  session_durations_ms = [];
  protocol_bytes = [];
  amplification_bytes = [];
  total_bytes = [];
  session_bytes = [];
  triggered = 0;
  total_probes = 0;
}

-- The body of the loop over the probes, without the session's total.
unfoldable pub add_probe : Estimate → Tally → Tally
add_probe est t = record t {
  protocol_bytes = t.protocol_bytes ++ est.protocol_only ∷ [];
  amplification_bytes = t.amplification_bytes ++ est.amplification ∷ [];
  total_bytes = t.total_bytes ++ est.total ∷ [];
  total_probes = t.total_probes + 1;
  triggered = if ltb_ℤ (pos 0) est.amplification then t.triggered + 1 else t.triggered;
}

abbrev pub add_duration : Option ℤ → Tally → Tally
add_duration none t = t
add_duration (some d) t = record t { session_durations_ms = t.session_durations_ms ++ d ∷ [] }

-- `if trace["probes"]`
abbrev pub add_session : List Activity → ℤ → Tally → Tally
add_session [] total t = t
add_session (p ∷ ps) total t = record t { session_bytes = t.session_bytes ++ total ∷ [] }

-- What the inner `stats` returns.
pub record Figures : Type 0 where
  pub n : ℕ
  pub mean : Json
  pub median : Json
  pub p95 : ℤ

module _ (py : Python) where
  -- `none` is an IndexError, or the OverflowError of the mean or the median.
  unfoldable pub figures_of : List ℤ → Option Figures
  unfolding p95_idx
  figures_of values_sorted = do
    mean ← py.mean_1 values_sorted
    median ← py.median values_sorted
    p95 ← get_elem? values_sorted (p95_idx (length values_sorted))
    some (record { n = length values_sorted; mean = mean; median = median; p95 = p95 })

  unfoldable pub figures : List ℤ → Option (Option Figures)
  unfolding figures_of sorted
  figures [] = some none
  figures (v ∷ vs) = do f ← figures_of (sorted (v ∷ vs)); some (some f)

pub record Overhead : Type 0 where
  pub total : ℕ
  pub probes_per_run : Option Figures
  pub refresh_cycles_per_run : Option Figures
  pub session_duration_ms : Option Figures
  pub protocol_bytes_per_probe : Option Figures
  pub amplification_bytes_per_probe : Option Figures
  pub total_bytes_per_probe : Option Figures
  pub total_bytes_per_session : Option Figures
  pub amplification_triggered_pct : Ratio

-- `amp_pct`, not yet rounded.
unfoldable pub percent : ℕ → ℕ → Ratio
percent triggered zero = record { num = 0; den = 1 }
percent triggered (suc n) = record { num = 100 * triggered; den = suc n }

module _ (py : Python) where
  -- The dict that is returned.
  unfoldable pub overhead_of : ℕ → Tally → Option Overhead
  unfolding figures percent
  overhead_of total t = do
    probes ← figures py t.probe_counts
    cycles ← figures py t.cycle_counts
    durations ← figures py t.session_durations_ms
    protocol ← figures py t.protocol_bytes
    amplification ← figures py t.amplification_bytes
    bytes ← figures py t.total_bytes
    sessions ← figures py t.session_bytes
    some (record {
      total = total;
      probes_per_run = probes;
      refresh_cycles_per_run = cycles;
      session_duration_ms = durations;
      protocol_bytes_per_probe = protocol;
      amplification_bytes_per_probe = amplification;
      total_bytes_per_probe = bytes;
      total_bytes_per_session = sessions;
      amplification_triggered_pct = percent t.triggered t.total_probes;
    })

  -- The elapsed time of the last "shutdown" event, if there is one.
  unfoldable pub duration : Trace → Option ℤ
  duration trace = do e ← last? (session_events trace "shutdown"); elapsed_ms py e

  -- The loop over the probes, with the session's total.
  unfoldable pub probes_loop : List Activity → Tally → ℤ → Option (Tally × ℤ)
  unfolding add_probe ◌+ℤ◌
  probes_loop [] t session_total = some (t, session_total)
  probes_loop (probe ∷ probes) t session_total = elim (probe_byte_estimate py probe) [
    | none ↦ none
    | some est ↦ probes_loop probes (add_probe est t) (session_total +ℤ est.total)
  ]

  -- What the body of the loop over the traces does before its inner loop.
  unfoldable pub open_session : Trace → Tally → Tally
  unfolding duration
  open_session trace t = add_duration (duration trace) (record t {
    probe_counts = t.probe_counts ++ pos (length trace.probes) ∷ [];
    cycle_counts = t.cycle_counts ++ pos (length trace.refresh_cycles) ∷ [];
  })

  unfoldable pub tally_trace : Trace → Tally → Option Tally
  unfolding probes_loop open_session
  tally_trace trace t = do
    (t', session_total) ← probes_loop trace.probes (open_session trace t) (pos 0)
    some (add_session trace.probes session_total t')

  unfoldable pub tally_loop : Traces → Tally → Option Tally
  unfolding tally_trace
  tally_loop [] t = some t
  tally_loop ((path, trace) ∷ traces) t = elim (tally_trace trace t) [
    | none ↦ none
    | some u ↦ tally_loop traces u
  ]

  unfoldable pub compute_protocol_overhead : Traces → Option Overhead
  unfolding tally_loop overhead_of
  compute_protocol_overhead traces = do
    t ← tally_loop traces empty_tally
    overhead_of (length traces) t
