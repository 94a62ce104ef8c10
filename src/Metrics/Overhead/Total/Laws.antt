-- ===== src/Metrics/Overhead/Total/Laws.antt =====
-- The result of `compute_protocol_overhead`.
use autonat_project.Base.{
  ℕ, zero, suc, ◌*◌, ◌≤◌, ◌<◌, ◌≡◌, refl, sym, ◌⊎◌, inl, inr, Option, none, some, List, [], ◌∷◌,
  length, arith, Option-cases,
}
use autonat_project.Base.Int.{ℤ}
use autonat_project.Json.{Python}
use autonat_project.Metrics.Events.{Traces}
use autonat_project.Metrics.Rates.{Ratio}
use autonat_project.Metrics.Stats.{sorted, p95_idx}
use autonat_project.Metrics.Stats.Order.{length-sorted, get_elem?_lt}
use autonat_project.Metrics.Overhead.Total.{
  Tally, empty_tally, tally_loop, Figures, figures_of, figures, Overhead, percent, overhead_of,
  compute_protocol_overhead,
}
use autonat_project.Metrics.Overhead.Total.Accounts.{AllEstimated, amplified_of, tally_loop_lem}

-- A percentage between 0 and 100: the share of `k` in `n`, and 0 of nothing.
pub record IsPercentage (k n : ℕ) (r : Ratio) : Type 0 where
  pub most : r.num ≤ 100 * r.den
  pub divided : 0 < r.den
  pub share : ((n ≡ 0) × (r.num ≡ 0)) ⊎ ((r.num ≡ 100 * k) × (r.den ≡ n))

percent-IsPercentage : (a n : ℕ) → a ≤ n → IsPercentage a n (percent a n)
unfolding percent
percent-IsPercentage a zero h = record {
  most = omega arith;
  divided = omega arith;
  share = inl (refl, refl);
}
percent-IsPercentage a (suc n) h = record {
  most = omega arith;
  divided = omega arith;
  share = inr (refl, refl);
}

-- One of the lists has the property.
abbrev pub AnyOf : (List ℤ → Type 0) → List (List ℤ) → Type 0
AnyOf P [] = ⊥
AnyOf P (vs ∷ lists) = P vs ⊎ AnyOf P lists

module _ (py : Python) where
  -- The mean or the median of some values, if there are any, is too large for a float.
  abbrev pub AreHuge : List ℤ → Type 0
  AreHuge [] = ⊥
  AreHuge (v ∷ vs) = (py.mean_1 (sorted (v ∷ vs)) ≡ none) ⊎ (py.median (sorted (v ∷ vs)) ≡ none)

  abbrev Summed : List ℤ → Type 0
  Summed vs =
      ((f : Option Figures) × (figures py vs ≡ some f)) ⊎ ((figures py vs ≡ none) × AreHuge vs)

  figures-Summed : (vs : List ℤ) → Summed vs
  unfolding figures figures_of p95_idx
  figures-Summed [] = inl (none, refl)
  figures-Summed (v ∷ vs) =
      let ws = sorted (v ∷ vs) in
      let (p, ep) = get_elem?_lt ws (p95_idx (length ws)) (omega (arith, length-sorted (v ∷ vs))) in
      elim (Option-cases (py.mean_1 ws)) [
        | inl e ↦ inr (rw e refl, inl e)
        | inr (m, e) ↦ elim (Option-cases (py.median ws)) [
          | inl f ↦ inr (rw (e, f) refl, inr f)
          | inr (d, f) ↦
              inl
                (some (record { n = length ws; mean = m; median = d; p95 = p }), rw (e, f, ep) refl)
        ]
      ]

  -- The lists of the tally.
  abbrev pub lists_of : Tally → List (List ℤ)
  lists_of t =
      t.probe_counts ∷ t.cycle_counts ∷ t.session_durations_ms ∷ t.protocol_bytes
      ∷ t.amplification_bytes ∷ t.total_bytes ∷ t.session_bytes ∷ []

  overhead_of-either :
      (total : ℕ) (t : Tally)
      → t.triggered ≤ t.total_probes
      → ((o : Overhead) × (overhead_of py total t ≡ some o)
          × (o.total ≡ total)
          × IsPercentage t.triggered t.total_probes o.amplification_triggered_pct)
        ⊎ ((overhead_of py total t ≡ none) × AnyOf AreHuge (lists_of t))
  unfolding overhead_of
  overhead_of-either total t few = elim (figures-Summed t.probe_counts) [
    | inr (e, why) ↦ inr (rw e refl, inl why)
    | inl (a, ea) ↦ elim (figures-Summed t.cycle_counts) [
      | inr (e, why) ↦ inr (rw (ea, e) refl, inr (inl why))
      | inl (b, eb) ↦ elim (figures-Summed t.session_durations_ms) [
        | inr (e, why) ↦ inr (rw (ea, eb, e) refl, inr (inr (inl why)))
        | inl (c, ec) ↦ elim (figures-Summed t.protocol_bytes) [
          | inr (e, why) ↦ inr (rw (ea, eb, ec, e) refl, inr (inr (inr (inl why))))
          | inl (d, ed) ↦ elim (figures-Summed t.amplification_bytes) [
            | inr (e, why) ↦ inr (rw (ea, eb, ec, ed, e) refl, inr (inr (inr (inr (inl why)))))
            | inl (f, ef) ↦ elim (figures-Summed t.total_bytes) [
              | inr (e, why) ↦
                  inr (rw (ea, eb, ec, ed, ef, e) refl, inr (inr (inr (inr (inr (inl why))))))
              | inl (g, eg) ↦ elim (figures-Summed t.session_bytes) [
                | inr (e, why) ↦ inr (
                  rw (ea, eb, ec, ed, ef, eg, e) refl,
                  inr (inr (inr (inr (inr (inr (inl why)))))),
                )
                | inl (h, eh) ↦ inl (
                  record {
                    total = total;
                    probes_per_run = a;
                    refresh_cycles_per_run = b;
                    session_duration_ms = c;
                    protocol_bytes_per_probe = d;
                    amplification_bytes_per_probe = f;
                    total_bytes_per_probe = g;
                    total_bytes_per_session = h;
                    amplification_triggered_pct = percent t.triggered t.total_probes;
                  },
                  rw (ea, eb, ec, ed, ef, eg, eh) refl,
                  refl,
                  percent-IsPercentage t.triggered t.total_probes few,
                )
              ]
            ]
          ]
        ]
      ]
    ]
  ]

  -- When every probe's bytes can be estimated, the loops of `compute_protocol_overhead` reach their
  -- end. Then it either returns: the number of traces, and the percentage of the probes whose
  -- amplification is above 0, which is between 0 and 100, and 0 if there is no probe. Or it raises
  -- the OverflowError of the mean or the median of one of its lists. No index is out of range and
  -- nothing is divided by zero.
  pub compute_protocol_overhead_lem :
      (traces : Traces)
      → AllEstimated py traces
      → (t : Tally) × (tally_loop py traces empty_tally ≡ some t)
        × (((o : Overhead) × (compute_protocol_overhead py traces ≡ some o)
              × (o.total ≡ length traces)
              × IsPercentage (amplified_of t) t.total_probes o.amplification_triggered_pct)
            ⊎ ((compute_protocol_overhead py traces ≡ none) × AnyOf AreHuge (lists_of t)))
  unfolding compute_protocol_overhead
  compute_protocol_overhead_lem traces hs =
      let (t, e, is) = tally_loop_lem py traces hs in
      (
        t,
        e,
        elim (overhead_of-either (length traces) t is.few) [
          | inl (o, f, total, percentage) ↦ inl (o, rw e f, total, rw (sym is.amplified) percentage)
          | inr (f, why) ↦ inr (rw e f, why)
        ],
      )
