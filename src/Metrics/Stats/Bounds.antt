-- ===== src/Metrics/Stats/Bounds.antt =====
-- What `stats` returns, where its figures lie, and when it raises an exception.
use autonat_project.Base.{
  ℕ, zero, suc, ◌+◌, ◌-◌, ◌*◌, ◌≤◌, ◌<◌, ◌≡◌, refl, ◌∙◌, some, List, [], ◌∷◌, length, get_elem?,
  All, arith, Option-cases, ◌⊎◌, none, inl, inr,
}
use autonat_project.Base.Int.{ℤ, pos_part, neg_part, ◌≤ℤ◌}
use autonat_project.Metrics.Stats.{Stats, sorted, p95_idx, summarize, stats}
use autonat_project.Json.{Python}
use autonat_project.Metrics.Stats.Order.{
  IsSorted, sorted-IsSorted, length-sorted, get_elem?_lt, get_elem?-le, last?-get_elem?,
}

-- n * v, as two parts.
abbrev TimesLe : ℕ → ℤ → ℤ → Type 0
TimesLe n v a = n * pos_part v + neg_part a ≤ pos_part a + n * neg_part v

abbrev LeTimes : ℤ → ℕ → ℤ → Type 0
LeTimes a n v = pos_part a + n * neg_part v ≤ n * pos_part v + neg_part a

-- Every figure that a summary of `values` gives is within their range.
pub record IsSummary (values : List ℤ) (s : Stats) : Type 0 where
  pub counted : s.n ≡ length values
  pub least : All (λ w. s.min_ms ≤ℤ w) values
  pub greatest : All (λ w. w ≤ℤ s.max_ms) values
  pub mean : (s.min_ms ≤ℤ s.mean_ms) × (s.mean_ms ≤ℤ s.max_ms)
  pub median : (s.min_ms ≤ℤ s.median_ms) × (s.median_ms ≤ℤ s.max_ms)
  pub p95 : (s.min_ms ≤ℤ s.p95_ms) × (s.p95_ms ≤ℤ s.max_ms)

get_elem?-lt_length : (xs : List ℤ) (i : ℕ) (w : ℤ) → get_elem? xs i ≡ some w → i < length xs
get_elem?-lt_length [] i w e = cc
get_elem?-lt_length (x ∷ xs) zero w e = omega arith
get_elem?-lt_length (x ∷ xs) (suc i) w e = omega (arith, get_elem?-lt_length xs i w e)

-- A sorted list that is not empty, with its two ends.
module _ (ws : List ℤ) (ordered : IsSorted ws) (full : 0 < length ws) (lo hi : ℤ)
    (first : get_elem? ws 0 ≡ some lo) (final : get_elem? ws (length ws - 1) ≡ some hi) where
  between : (i : ℕ) (w : ℤ) → get_elem? ws i ≡ some w → (lo ≤ℤ w) × (w ≤ℤ hi)
  between i w e =
      let bound = get_elem?-lt_length ws i w e in
      (
        get_elem?-le ws 0 i lo w ordered (omega arith) first e,
        get_elem?-le ws i (length ws - 1) w hi ordered (omega arith) e final,
      )

  -- The percentile's index is in range.
  p95-between : (p : ℤ) × (get_elem? ws (p95_idx (length ws)) ≡ some p) × (lo ≤ℤ p) × (p ≤ℤ hi)
  unfolding p95_idx
  p95-between =
      let (p, e) = get_elem?_lt ws (p95_idx (length ws)) (omega arith) in
      let (a, b) = between _ p e in (p, e, a, b)

  -- Only the mean and the median can raise an exception.
  summarize-overflow :
      (py : Python)
      → ((s : Stats) × (summarize py ws ≡ some s) × (s.n ≡ length ws))
        ⊎ ((summarize py ws ≡ none) × ((py.round_mean ws ≡ none) ⊎ (py.round_median ws ≡ none)))
  unfolding summarize
  summarize-overflow py = elim (Option-cases (py.round_mean ws)) [
    | inl e ↦ inr (rw e refl, inl e)
    | inr (mean, e) ↦ elim (Option-cases (py.round_median ws)) [
      | inl f ↦ inr (rw (e, f) refl, inr f)
      | inr (median, f) ↦
          let (p, ep, pa, pb) = p95-between in
          inl (
            record {
              n = length ws;
              mean_ms = mean;
              median_ms = median;
              p95_ms = p;
              min_ms = lo;
              max_ms = hi;
            },
            rw (e, f, ep, first, last?-get_elem?, final) refl,
            refl,
          )
    ]
  ]

-- The ends of the sorted values.
ends :
    (values : List ℤ)
    → 0 < length values
    → (0 < length (sorted values))
      × (lo : ℤ) × (hi : ℤ) × (get_elem? (sorted values) 0 ≡ some lo)
      × (get_elem? (sorted values) (length (sorted values) - 1) ≡ some hi)
ends values pos_length =
    let ws = sorted values in
    let full : 0 < length ws = omega (arith, length-sorted values) in
    let (lo, first) = get_elem?_lt ws 0 full in
    let (hi, final) = get_elem?_lt ws (length ws - 1) (omega arith) in (full, lo, hi, first, final)

-- The mean or the median of the values is too large for a float.
abbrev pub Overflows : Python → List ℤ → Type 0
Overflows py values =
    (py.round_mean (sorted values) ≡ none) ⊎ (py.round_median (sorted values) ≡ none)

-- `stats` returns a summary of all values, or raises the OverflowError of the mean or the median.
pub stats-overflow :
    (py : Python) (v : ℤ) (vs : List ℤ)
    → ((s : Stats) × (stats py (v ∷ vs) ≡ some (some s)) × (s.n ≡ length (v ∷ vs)))
      ⊎ ((stats py (v ∷ vs) ≡ none) × Overflows py (v ∷ vs))
unfolding stats
stats-overflow py v vs =
    let ws = sorted (v ∷ vs) in
    let (full, lo, hi, first, final) = ends (v ∷ vs) (omega arith) in
    elim (summarize-overflow ws (sorted-IsSorted (v ∷ vs)) full lo hi first final py) [
      | inl (s, e, n) ↦ inl (s, rw e refl, n ∙ length-sorted (v ∷ vs))
      | inr (e, why) ↦ inr (rw e refl, why)
    ]

-- Numbers of 31 bits, so that a float has bits to spare for their mean.
abbrev pub IsSmall : ℤ → Type 0
IsSmall v = (pos_part v ≤ 2147483648) × (neg_part v ≤ 2147483648)
