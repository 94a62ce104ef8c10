-- ===== src/Metrics/Overhead/Total/Accounts.antt =====
-- The accounts of `compute_protocol_overhead` over its loops: its lists and counters.
use mathlib.Core.Path.{subst}
use autonat_project.Metrics.Overhead.Laws.{probe_byte_estimate_lem}
use autonat_project.Base.{
  ℕ, suc, ◌+◌, ◌≤◌, ◌≡◌, refl, sym, ◌∙◌, ap, inl, inr, Option, none, some, List, [], ◌∷◌, ◌++◌,
  length, length-append, count, if◌then◌else◌, All, arith, Option-cases,
}
use autonat_project.Base.Int.{pos_part, neg_part, ℤ, ltb_ℤ, pos, ◌+ℤ◌, int_laws}
use autonat_project.Json.{Python, default, str}
use autonat_project.Base.Dict.{lookup}
use autonat_project.Trace.Parse.{Trace, Activity}
use autonat_project.Metrics.Events.{Traces}
use autonat_project.Metrics.Stats.{sum}
use autonat_project.Metrics.Overhead.{Estimate, addrs_of, probe_byte_estimate, estimate_of}
use autonat_project.Metrics.Overhead.Total.{
  Tally, empty_tally, add_probe, add_duration, duration, probes_loop, open_session, tally_trace,
  tally_loop,
}

sum-snoc : (vs : List ℤ) (v : ℤ) → sum (vs ++ v ∷ []) ≡ sum vs +ℤ v
unfolding sum
sum-snoc [] v = omega int_laws
sum-snoc (w ∷ vs) v = rw (sum-snoc vs v) (omega int_laws)

regroup : (a b c d : ℤ) → (a +ℤ b) +ℤ (c +ℤ d) ≡ (a +ℤ c) +ℤ (b +ℤ d)
regroup a b c d = omega int_laws

cancel : (v u t a b c : ℤ) → u +ℤ a ≡ t +ℤ b → v +ℤ b ≡ u +ℤ c → v +ℤ a ≡ t +ℤ c
cancel v u t a b c g h =
    omega (int_laws, ap pos_part g, ap neg_part g, ap pos_part h, ap neg_part h)

even : (u t : ℤ) → u +ℤ pos 0 ≡ t +ℤ pos 0 → t ≡ u
even u t h = omega (int_laws, ap pos_part h, ap neg_part h)

owed : (u t r : ℤ) → u +ℤ pos 0 ≡ t +ℤ r → u ≡ t +ℤ r
owed u t r h = omega (int_laws, ap pos_part h, ap neg_part h)

-- A probe whose bytes can be estimated.
abbrev pub HasEstimate : Python → Activity → Type 0
HasEstimate py probe = (est : Estimate) × (probe_byte_estimate py probe ≡ some est)

-- All bytes are either amplification data or the protocol's.
abbrev pub IsSplit : Tally → Type 0
IsSplit t = sum t.total_bytes ≡ sum t.protocol_bytes +ℤ sum t.amplification_bytes

-- How many of the probes' amplifications are above 0.
abbrev pub amplified_of : Tally → ℕ
amplified_of t = count (ltb_ℤ (pos 0)) t.amplification_bytes

count-snoc :
    (vs : List ℤ) (v : ℤ)
    → count (ltb_ℤ (pos 0)) (vs ++ v ∷ [])
      ≡ count (ltb_ℤ (pos 0)) vs + (if ltb_ℤ (pos 0) v then 1 else 0)
unfolding count
count-snoc [] v = ground arith
count-snoc (w ∷ vs) v = ground (arith, count-snoc vs v)

-- What a run of the loop over the probes does.
record Adds (n : ℕ) (t : Tally) (before : ℤ) (u : Tally) (after : ℤ) : Type 0 where
  counts : u.probe_counts ≡ t.probe_counts
  sessions : u.session_bytes ≡ t.session_bytes
  probes : u.total_probes ≡ t.total_probes + n
  bytes : sum u.total_bytes +ℤ before ≡ sum t.total_bytes +ℤ after
  split : IsSplit t → IsSplit u
  few : u.triggered + t.total_probes ≤ t.triggered + u.total_probes
  amplified : u.triggered + amplified_of t ≡ t.triggered + amplified_of u

-- What holds after `n` rounds of the loop over the traces: the probes of the runs are those that are
-- counted, the sessions' bytes are the probes', and the amplified probes are counted.
pub record IsTally (n : ℕ) (t : Tally) : Type 0 where
  pub runs : length t.probe_counts ≡ n
  pub counts : sum t.probe_counts ≡ pos t.total_probes
  pub sessions : sum t.session_bytes ≡ sum t.total_bytes
  pub split : IsSplit t
  pub few : t.triggered ≤ t.total_probes
  pub amplified : t.triggered ≡ amplified_of t

empty-IsTally : IsTally 0 empty_tally
unfolding sum count
empty-IsTally = record {
  runs = refl;
  counts = refl;
  sessions = refl;
  split = omega int_laws;
  few = omega arith;
  amplified = refl;
}

module _ (py : Python) where
  estimate_split :
      (probe : Activity) (est : Estimate)
      → probe_byte_estimate py probe ≡ some est
      → est.total ≡ est.protocol_only +ℤ est.amplification
  unfolding probe_byte_estimate estimate_of
  estimate_split probe est =
      elim (Option-cases (addrs_of py (default (str "[]") (lookup "autonat.addrs" probe.attrs)))) [
        | inl e ↦ rw e (λ h. absurd (cc))
        | inr (addrs, e) ↦ λ h.
            let (est', same, is, _) = probe_byte_estimate_lem py probe e in
            let q : est' ≡ est = cc (same, h) in
            subst (λ (z : Estimate). z.total ≡ z.protocol_only +ℤ z.amplification) q is.split
      ]

  Adds-add_probe :
      (est : Estimate) (t : Tally) (s : ℤ)
      → est.total ≡ est.protocol_only +ℤ est.amplification
      → Adds 1 t s (add_probe est t) (s +ℤ est.total)
  unfolding add_probe
  Adds-add_probe est t s h = record {
    counts = refl;
    sessions = refl;
    probes = refl;
    bytes = rw (sum-snoc t.total_bytes est.total) (omega int_laws);
    split = λ k.
        rw
          (
            sum-snoc t.total_bytes est.total,
            sum-snoc t.protocol_bytes est.protocol_only,
            sum-snoc t.amplification_bytes est.amplification,
            k,
            h,
          )
          (regroup _ _ _ _);
    few = ground arith;
    amplified = ground (arith, count-snoc t.amplification_bytes est.amplification);
  }

  Adds-trans :
      {m n k : ℕ} {t u v : Tally} {a b c : ℤ}
      → k ≡ m + n
      → Adds m t a u b
      → Adds n u b v c
      → Adds k t a v c
  Adds-trans e g h = record {
    counts = h.counts ∙ g.counts;
    sessions = h.sessions ∙ g.sessions;
    probes = omega (arith, g.probes, h.probes);
    bytes = cancel _ _ _ _ _ _ g.bytes h.bytes;
    split = λ k. h.split (g.split k);
    few = omega (arith, g.few, h.few);
    amplified = omega (arith, g.amplified, h.amplified);
  }

  probes_loop-Adds :
      (probes : List Activity) (t : Tally) (s : ℤ)
      → All (HasEstimate py) probes
      → (u : Tally) × (r : ℤ) × (probes_loop py probes t s ≡ some (u, r))
        × Adds (length probes) t s u r
  unfolding probes_loop
  probes_loop-Adds [] t s _ = (
    t,
    s,
    refl,
    record {
      counts = refl;
      sessions = refl;
      probes = omega arith;
      bytes = refl;
      split = λ k. k;
      few = omega arith;
      amplified = omega arith;
    },
  )
  probes_loop-Adds (probe ∷ probes) t s ((est, e), hs) =
      let (u, r, eq, h) = probes_loop-Adds probes (add_probe est t) (s +ℤ est.total) hs in
      (
        u,
        r,
        rw (e, probes_loop) eq,
        Adds-trans (omega arith) (Adds-add_probe est t s (estimate_split probe est e)) h,
      )

  -- The duration changes none of the accounts.
  Adds-add_duration : (d : Option ℤ) (t : Tally) → Adds 0 t (pos 0) (add_duration d t) (pos 0)
  Adds-add_duration none t = record {
    counts = refl;
    sessions = refl;
    probes = omega arith;
    bytes = refl;
    split = λ k. k;
    few = omega arith;
    amplified = omega arith;
  }
  Adds-add_duration (some d) t = record {
    counts = refl;
    sessions = refl;
    probes = omega arith;
    bytes = refl;
    split = λ k. k;
    few = omega arith;
    amplified = omega arith;
  }

  -- A round of the loop over the traces.
  module _ (n : ℕ) (trace : Trace) (t : Tally) (is : IsTally n t) where
    runs_suc : length (t.probe_counts ++ pos (length trace.probes) ∷ []) ≡ suc n
    runs_suc = omega (arith, length-append t.probe_counts (pos (length trace.probes) ∷ []), is.runs)

    counts_sum :
        (k : ℕ)
        → k ≡ t.total_probes + length trace.probes
        → sum (t.probe_counts ++ pos (length trace.probes) ∷ []) ≡ pos k
    counts_sum k e =
        rw (sum-snoc t.probe_counts (pos (length trace.probes)), is.counts) (omega (int_laws, e))

    IsTally-none : length trace.probes ≡ 0 → IsTally (suc n) (open_session py trace t)
    unfolding open_session
    IsTally-none e =
        let h = Adds-add_duration (duration py trace) (record t {
          probe_counts = t.probe_counts ++ pos (length trace.probes) ∷ [];
          cycle_counts = t.cycle_counts ++ pos (length trace.refresh_cycles) ∷ [];
        }) in
        record {
          runs = rw h.counts runs_suc;
          counts = rw h.counts (counts_sum _ (omega (arith, h.probes)));
          sessions = rw h.sessions (is.sessions ∙ even _ _ h.bytes);
          split = h.split is.split;
          few = omega (arith, h.few, is.few);
          amplified = omega (arith, h.amplified, is.amplified);
        }

    IsTally-some :
        (u : Tally) (r : ℤ)
        → Adds (length trace.probes) (open_session py trace t) (pos 0) u r
        → IsTally (suc n) (record u { session_bytes = u.session_bytes ++ r ∷ [] })
    unfolding open_session
    IsTally-some u r g =
        let h =
          Adds-trans refl
            (Adds-add_duration (duration py trace) (record t {
              probe_counts = t.probe_counts ++ pos (length trace.probes) ∷ [];
              cycle_counts = t.cycle_counts ++ pos (length trace.refresh_cycles) ∷ [];
            }))
            g in
        record {
          runs = rw h.counts runs_suc;
          counts = rw h.counts (counts_sum _ (omega (arith, h.probes)));
          sessions =
              rw (h.sessions, sum-snoc t.session_bytes r, is.sessions) (sym (owed _ _ _ h.bytes));
          split = h.split is.split;
          few = omega (arith, h.few, is.few);
          amplified = omega (arith, h.amplified, is.amplified);
        }

    tally_trace-IsTally :
        (ps : List Activity)
        → trace.probes ≡ ps
        → All (HasEstimate py) trace.probes
        → (u : Tally) × (tally_trace py trace t ≡ some u) × IsTally (suc n) u
    unfolding tally_trace
    tally_trace-IsTally [] e hs =
        (open_session py trace t, rw (e, probes_loop) refl, IsTally-none (rw e refl))
    tally_trace-IsTally (p ∷ ps) e hs =
        let (u, r, eq, h) = probes_loop-Adds trace.probes (open_session py trace t) (pos 0) hs in
        (
          record u { session_bytes = u.session_bytes ++ r ∷ [] },
          rw eq (rw e refl),
          IsTally-some u r h,
        )

  -- Every probe's bytes can be estimated.
  abbrev pub AllEstimated : Traces → Type 0
  AllEstimated traces = All (λ (_, trace). All (HasEstimate py) trace.probes) traces

  tally_loop-IsTally :
      (traces : Traces) (n : ℕ) (t : Tally)
      → IsTally n t
      → AllEstimated traces
      → (u : Tally) × (tally_loop py traces t ≡ some u) × IsTally (n + length traces) u
  unfolding tally_loop
  tally_loop-IsTally [] n t is _ = (t, refl, subst (λ (k : ℕ). IsTally k t) (omega arith) is)
  tally_loop-IsTally ((path, trace) ∷ traces) n t is (h, hs) =
      let (u, e, is') = tally_trace-IsTally n trace t is trace.probes refl h in
      let (v, f, is'') = tally_loop-IsTally traces (suc n) u is' hs in
      (v, rw (e, tally_loop) f, subst (λ (k : ℕ). IsTally k v) (omega arith) is'')

  -- When every probe's bytes can be estimated, the loops of `compute_protocol_overhead` reach their
  -- end, and their accounts agree: there is one probe count for each trace and these add up to the
  -- number of probes, the bytes of the sessions add up to the bytes of the probes, these are the
  -- protocol's bytes and the amplification data together, and the probes that are counted as
  -- amplified are those whose amplification is above 0, no more than there are probes.
  pub tally_loop_lem :
      (traces : Traces)
      → AllEstimated traces
      → (t : Tally) × (tally_loop py traces empty_tally ≡ some t) × IsTally (length traces) t
  tally_loop_lem traces hs =
      let (t, e, is) = tally_loop-IsTally traces 0 empty_tally empty-IsTally hs in
      (t, e, subst (λ (k : ℕ). IsTally k t) (omega arith) is)
