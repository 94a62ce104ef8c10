-- ===== src/Metrics/Rates.antt =====
-- `compute_fnr` and `compute_fpr`. A rate is kept as the two numbers of its division.
pub mod Laws
use autonat_project.Base.{
  ℕ, ◌+◌, ◌≤◌, ◌<◌, String, ◌≡◌, refl, ◌∙◌, Bool, true, false, not, ◌&&◌, List, [], ◌∷◌, ◌++◌, map,
  length, count, arith, ltb, if◌then◌else◌, count-le-length,
}
use autonat_project.Json.{Python}
use autonat_project.Trace.Parse.{Trace}
use autonat_project.Metrics.Events.{Traces, any_public, any_reachable}

pub record Ratio : Type 0 where
  pub num : ℕ
  pub den : ℕ

-- `n / total if total > 0 else 0.0`
unfoldable pub rate_of : ℕ → ℕ → Ratio
rate_of n total =
    if ltb 0 total then record { num = n; den = total } else record { num = 0; den = 1 }

-- One entry of "details". `reachable` is the field "converged_reachable" of one metric and
-- "reported_reachable" of the other, and `wrong` is "false_negative" or "false_positive".
pub record Detail : Type 0 where
  pub path : String
  pub any_probe_public : Bool
  pub reachable : Bool
  pub wrong : Bool

pub record Rate : Type 0 where
  pub total : ℕ
  pub wrongs : ℕ
  pub rate : Ratio
  pub details : List Detail

module _ (py : Python) where
  unfoldable pub is_fn : Trace → Bool
  is_fn t = any_public t && not (any_reachable py t)

  unfoldable pub is_fp : Trace → Bool
  is_fp t = not (any_public t) && any_reachable py t

  abbrev pub detail : (Trace → Bool) → String × Trace → Detail
  detail wrong (path, t) = record {
    path = path;
    any_probe_public = any_public t;
    reachable = any_reachable py t;
    wrong = wrong t;
  }

  -- The loop of either function: its counter and its list.
  unfoldable pub rate_loop : (Trace → Bool) → Traces → ℕ → List Detail → ℕ × List Detail
  rate_loop wrong [] n details = (n, details)
  rate_loop wrong ((path, t) ∷ rest) n details =
      rate_loop wrong rest (if wrong t then n + 1 else n) (details ++ detail wrong (path, t) ∷ [])

  abbrev rate_result : (Trace → Bool) → Traces → Rate
  rate_result wrong traces =
      let (n, details) = rate_loop wrong traces 0 [] in
      record {
        total = length traces;
        wrongs = n;
        rate = rate_of n (length traces);
        details = details;
      }

  unfoldable pub compute_fnr : Traces → Rate
  unfolding is_fn rate_loop rate_of
  compute_fnr traces = rate_result is_fn traces

  unfoldable pub compute_fpr : Traces → Rate
  unfolding is_fp rate_loop rate_of
  compute_fpr traces = rate_result is_fp traces
