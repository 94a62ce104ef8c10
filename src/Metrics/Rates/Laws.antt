-- ===== src/Metrics/Rates/Laws.antt =====
-- What the two rates count, and how they share the traces out between them.
use autonat_project.Base.{
  ℕ, ◌+◌, ◌≤◌, ◌<◌, String, ◌≡◌, refl, ◌∙◌, Bool, not, ◌&&◌, List, [], ◌∷◌, ◌++◌, map, length,
  count, arith, if◌then◌else◌, count-le-length,
}
use mathlib.Core.List.{append_assoc, append-nil}
use autonat_project.Json.{Python}
use autonat_project.Trace.Parse.{Trace}
use autonat_project.Metrics.Events.{Traces, any_public, any_reachable}
use autonat_project.Metrics.Rates.{
  Rate, Detail, detail, rate_loop, is_fn, is_fp, compute_fnr, compute_fpr,
}

module _ (py : Python) where
  rate_loop_lem :
      (wrong : Trace → Bool) (ts : Traces) (n : ℕ) (ds : List Detail)
      → rate_loop py wrong ts n ds ≡ (n + count (λ p. wrong p.1) ts, ds ++ map (detail py wrong) ts)
  unfolding rate_loop count
  rate_loop_lem wrong [] n ds = ground (arith, append-nil ds)
  rate_loop_lem wrong ((path, t) ∷ rest) n ds =
      rate_loop_lem wrong rest _ _
      ∙ ground
          (arith, append_assoc ds (detail py wrong (path, t) ∷ []) (map (detail py wrong) rest))

  -- `compute_fnr` counts the traces in which some probe was public and no reachable address was
  -- reported, and lists every trace once, in order, with the three facts about it.
  pub compute_fnr_lem :
      (ts : Traces)
      → ((compute_fnr py ts).total ≡ length ts)
        × ((compute_fnr py ts).wrongs
            ≡ count (λ p. any_public p.1 && not (any_reachable py p.1)) ts)
        × ((compute_fnr py ts).details ≡ map (detail py (is_fn py)) ts)
  unfolding compute_fnr
  compute_fnr_lem ts = ground (arith, rate_loop_lem (is_fn py) ts 0 [])

  -- `compute_fpr` counts the traces in which no probe was public and some reachable address was
  -- reported all the same, and lists every trace once, in order, with the three facts about it.
  pub compute_fpr_lem :
      (ts : Traces)
      → ((compute_fpr py ts).total ≡ length ts)
        × ((compute_fpr py ts).wrongs
            ≡ count (λ p. not (any_public p.1) && any_reachable py p.1) ts)
        × ((compute_fpr py ts).details ≡ map (detail py (is_fp py)) ts)
  unfolding compute_fpr
  compute_fpr_lem ts = ground (arith, rate_loop_lem (is_fp py) ts 0 [])

  -- A trace in which the probes and the reports agree.
  abbrev pub agrees : String × Trace → Bool
  agrees (path, t) = if any_public t then any_reachable py t else not (any_reachable py t)

  count_partition :
      (ts : Traces)
      → count (λ p. any_public p.1 && not (any_reachable py p.1)) ts
          + count (λ p. not (any_public p.1) && any_reachable py p.1) ts
          + count agrees ts
        ≡ length ts
  unfolding count
  count_partition [] = refl
  count_partition ((path, t) ∷ rest) = ground (arith, count_partition rest)

  -- No trace is both a false negative and a false positive: the two counts and the number of the
  -- traces where probes and reports agree add up to the number of traces.
  pub fnr-fpr_partition :
      (ts : Traces)
      → (compute_fnr py ts).wrongs + (compute_fpr py ts).wrongs + count agrees ts ≡ length ts
  fnr-fpr_partition ts = omega (arith, count_partition ts, compute_fnr_lem ts, compute_fpr_lem ts)

  abbrev pub IsRate : Rate → Type 0
  IsRate r = (r.rate.num ≤ r.rate.den) × (0 < r.rate.den)

  -- Neither rate divides by zero, and neither exceeds 1, for no trace at all too.
  pub rates_bounds : (ts : Traces) → IsRate (compute_fnr py ts) × IsRate (compute_fpr py ts)
  unfolding compute_fnr compute_fpr
  rates_bounds ts = ground (
    arith,
    rate_loop_lem (is_fn py) ts 0 [],
    rate_loop_lem (is_fp py) ts 0 [],
    count-le-length (λ (p : String × Trace). is_fn py p.1) ts,
    count-le-length (λ (p : String × Trace). is_fp py p.1) ts,
  )
