-- ===== src/Figures/Bars.antt =====
-- The bars of results/generate_figures.py: of `fig_convergence`, of `fig_fnr_fpr_summary` and of
-- `fig_protocol_overhead`. `none` is an exception.
pub mod Laws
use autonat_project.Base.{
  ℕ, ◌+◌, String, ◌<>◌, ◌||◌, Bool, true, false, not, any, Option, none, some, List, [], ◌∷◌, ◌++◌,
  map, ltb, if◌then◌else◌, ◌>>=◌,
}
use autonat_project.Base.Int.{ℤ, pos, ◌+ℤ◌, ltb_ℤ}
use autonat_project.Base.Show.{show}
use autonat_project.Base.Dict.{Dict, lookup}
use autonat_project.Json.{Json, int, default, Python}
use autonat_project.Figures.Detection.{nat_order, transports, reachable_nats}
use autonat_project.Figures.Conditions.{Convergence}
use autonat_project.Figures.Rates.{Rates, File, compute_fnr_fpr, compute_fnr_fpr_gap}
use autonat_project.Figures.Overhead.{SessionBytes, no_bytes}

-- The key of a NAT type and a transport.
abbrev pub pair_key : String → String → String
pair_key nat transport = nat <> " " <> transport

abbrev pub is_there {ℓ} : {V : Type ℓ} → Option V → Bool
is_there none = false
is_there (some v) = true

-- The two rows of bars of a transport, and whether "no event" is written at the symmetric NAT.
pub record ConvergenceBars : Type 0 where
  pub v1_vals : List Json
  pub v2_vals : List Json
  pub no_event : Bool

unfoldable pub convergence_bars : Convergence → String → ConvergenceBars
unfolding lookup
convergence_bars c transport = record {
  v1_vals = map (λ n. default (int (pos 0)) (lookup (pair_key n transport) c.v1_data)) nat_order;
  v2_vals = map (λ n. default (int (pos 0)) (lookup (pair_key n transport) c.v2_data)) nat_order;
  no_event = not (is_there (lookup (pair_key "symmetric" transport) c.v2_data));
}

-- `experiments`: a label, and the directory that it is measured in.
abbrev pub experiments : List (String × String)
experiments =
    ("Baseline\n(local)", "full-matrix-20260320T090848Z")
    ∷ ("High Latency\n200ms", "high-latency-20260320T134357Z")
    ∷ ("High Latency\n500ms", "high-latency-20260320T134357Z")
    ∷ ("Packet Loss\n1%", "packet-loss-20260320T140258Z")
    ∷ ("Packet Loss\n5%", "packet-loss-20260320T140258Z")
    ∷ ("Packet Loss\n10%", "packet-loss-20260320T140258Z")
    ∷ []

-- The four lists of values are given as one list of rates, beside the list of the labels.
pub record Summary : Type 0 where
  pub vals : List Rates
  pub labels : List String

-- `list_dir` is what a directory of the results holds, where it exists.
module _ (py : Python) (to_float : Json → Option Json)
    (list_dir : String → Option (List File)) where
  abbrev experiment : String → Option (List File) → Option Rates
  experiment label none = compute_fnr_fpr py to_float false label reachable_nats []
  experiment label (some files) = compute_fnr_fpr py to_float true label reachable_nats files

  unfoldable pub experiment_rates : List (String × String) → Option (List Rates)
  unfolding compute_fnr_fpr
  experiment_rates [] = some []
  experiment_rates ((label, dir) ∷ rest) = do
    r ← experiment label (list_dir dir)
    rs ← experiment_rates rest
    some (r ∷ rs)

  -- `gap_dirs` are the directories of the results.
  unfoldable pub fnr_fpr_summary : List (String × List File) → Option Summary
  unfolding experiment_rates compute_fnr_fpr_gap
  fnr_fpr_summary gap_dirs = do
    rates ← experiment_rates experiments
    gap ← compute_fnr_fpr_gap py to_float gap_dirs
    some (record {
      vals = rates ++ gap ∷ [];
      labels = map (λ e. e.0) experiments ++ "v1/v2 Gap\n(unreliable\nservers)" ∷ [];
    })

-- What is drawn for a transport: the two parts of each bar, whether the upper part is drawn, the
-- text above, and the number of probes with its text.
pub record OverheadBars : Type 0 where
  pub proto_vals : List ℤ
  pub amp_vals : List ℤ
  pub with_amp : Bool
  pub totals : List (Option String)
  pub counts : List ℕ
  pub count_texts : List (Option String)

abbrev pub session_of : Dict SessionBytes → String → String → SessionBytes
session_of d transport nat = default_bytes (lookup (pair_key nat transport) d)
  where
    default_bytes : Option SessionBytes → SessionBytes
    default_bytes none = no_bytes
    default_bytes (some b) = b

abbrev pub above_zero : String → ℤ → Option String
above_zero unit n = if ltb_ℤ (pos 0) n then some (show n <> unit) else none

unfoldable pub total_texts : List ℤ → List ℤ → List (Option String)
unfolding show ◌+ℤ◌
total_texts (a ∷ proto_vals) (b ∷ amp_vals) =
    above_zero "B" (a +ℤ b) ∷ total_texts proto_vals amp_vals
total_texts _ _ = []

unfoldable pub overhead_bars : Dict SessionBytes → String → OverheadBars
unfolding lookup total_texts any show
overhead_bars d transport =
    let sessions = map (session_of d transport) nat_order in
    let proto = map (λ (s : SessionBytes). s.protocol_bytes) sessions in
    let amp = map (λ (s : SessionBytes). s.amplification_bytes) sessions in
    let probes = map (λ (s : SessionBytes). s.probe_count) sessions in
    record {
      proto_vals = proto;
      amp_vals = amp;
      with_amp = any (ltb_ℤ (pos 0)) amp;
      totals = total_texts proto amp;
      counts = probes;
      count_texts = map (λ n. above_zero "" (pos n)) probes;
    }
