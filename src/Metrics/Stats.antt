-- ===== src/Metrics/Stats.antt =====
-- The summary of a metric's values: `sorted` and the percentile's index.
pub mod Order
pub mod Exact
pub mod Bounds
use autonat_project.Base.{
  ℕ, zero, suc, ◌+◌, ◌-◌, ◌*◌, ◌/◌, ◌%◌, Bool, Option, none, some, List, [], ◌∷◌, length, get_elem?,
  last?, ltb, eqb, if◌then◌else◌, ◌>>=◌, ◌≡◌, refl,
}
use autonat_project.Base.Int.{ℤ, pos, ◌+ℤ◌, leb_ℤ}
use autonat_project.Json.{Python}

-- `sorted`
insert : ℤ → List ℤ → List ℤ
insert v [] = v ∷ []
insert v (w ∷ ws) = if leb_ℤ v w then v ∷ w ∷ ws else w ∷ insert v ws

unfoldable pub sorted : List ℤ → List ℤ
unfolding insert
sorted [] = []
sorted (v ∷ vs) = insert v (sorted vs)

unfoldable pub sum : List ℤ → ℤ
unfolding ◌+ℤ◌
sum [] = pos 0
sum (v ∷ vs) = v +ℤ sum vs

-- `max(0, int(n * 0.95) - 1)`
unfoldable pub p95_idx : ℕ → ℕ
p95_idx n = 95 * n / 100 - 1

pub record Stats : Type 0 where
  pub n : ℕ
  pub mean_ms : ℤ
  pub median_ms : ℤ
  pub p95_ms : ℤ
  pub min_ms : ℤ
  pub max_ms : ℤ

-- The mean and the median come from the library.
module _ (py : Python) where
  -- What `stats` returns for the sorted values; `none` is an IndexError, or the OverflowError of the
  -- mean or the median.
  unfoldable pub summarize : List ℤ → Option Stats
  unfolding p95_idx
  summarize values_sorted = do
    let n = length values_sorted
    mean ← py.round_mean values_sorted
    median ← py.round_median values_sorted
    p95 ← get_elem? values_sorted (p95_idx n)
    least ← get_elem? values_sorted 0
    greatest ← last? values_sorted
    some (record {
      n = n;
      mean_ms = mean;
      median_ms = median;
      p95_ms = p95;
      min_ms = least;
      max_ms = greatest;
    })

  -- `stats` of `compute_time_to_confidence`: `some none` is its None.
  unfoldable pub stats : List ℤ → Option (Option Stats)
  unfolding sorted summarize
  stats [] = some none
  stats (v ∷ vs) = do s ← summarize (sorted (v ∷ vs)); some (some s)
