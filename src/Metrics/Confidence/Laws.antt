-- ===== src/Metrics/Confidence/Laws.antt =====
-- The times that the loops of `compute_time_to_confidence` find, and how the traces are shared out.
use autonat_project.Base.{
  ◌⊎◌, ℕ, suc, ◌+◌, String, ◌≡◌, refl, ◌∙◌, Option, none, some, List, [], ◌∷◌, length,
  if◌then◌else◌, arith, length-append, Option-cases, inl, inr,
}
use autonat_project.Base.Int.{ℤ}
use autonat_project.Json.{Python}
use autonat_project.Trace.Attrs.{Event}
use autonat_project.Trace.Parse.{Trace}
use autonat_project.Metrics.Events.{Traces, session_events, lists_some, elapsed_ms}
use autonat_project.Metrics.Stats.{Stats, stats}
use autonat_project.Metrics.Stats.Bounds.{Overflows, stats-overflow}
use autonat_project.Metrics.Confidence.{
  Times, Outcomes, Confidence, first_time, ttc_loop, record_outcome, times, traces_loop, outcomes,
  compute_time_to_confidence,
}

-- The first result that a list has.
unfoldable pub find_first {ℓ κ} : {A : Type ℓ} {B : Type κ} → (A → Option B) → List A → Option B
find_first f [] = none
find_first f (x ∷ xs) = elim (f x) [ some y ↦ some y | none ↦ find_first f xs ]

abbrev pub or_first {ℓ κ} :
    {A : Type ℓ} {B : Type κ} → Option B → (A → Option B) → List A → Option B
or_first none f xs = find_first f xs
or_first (some b) f xs = some b

module _ (py : Python) where
  -- The time of an event that lists some address under the key and has an integer time.
  unfoldable pub time_at : String → Event → Option ℤ
  time_at key e = if lists_some py key e then elapsed_ms py e else none

  first_time_lem :
      (key : String) (found : Option ℤ) (e : Event) (es : List Event)
      → or_first (first_time py key found e) (time_at key) es
        ≡ or_first found (time_at key) (e ∷ es)
  unfolding first_time find_first time_at
  first_time_lem key none e es = ground arith
  first_time_lem key (some t) e es = refl

  ttc_loop_lem :
      (es : List Event) (ts : Times)
      → ttc_loop py es ts ≡ record {
        reachable = or_first ts.reachable (time_at "reachable") es;
        unreachable = or_first ts.unreachable (time_at "unreachable") es;
      }
  unfolding ttc_loop find_first
  ttc_loop_lem [] ts = ground arith
  ttc_loop_lem (e ∷ es) ts =
      ttc_loop_lem es _
      ∙ rw (
        first_time_lem "reachable" ts.reachable e es,
        first_time_lem "unreachable" ts.unreachable e es,
      )

  -- A trace's times are those of the first "reachable_addrs_changed" event that lists an address
  -- as reachable, or as unreachable, among those whose elapsed time is an integer.
  pub times_lem :
      (t : Trace)
      → let es = session_events t "reachable_addrs_changed" in
        times py t ≡ record {
          reachable = find_first (time_at "reachable") es;
          unreachable = find_first (time_at "unreachable") es;
        }
  times_lem t = ttc_loop_lem (session_events t "reachable_addrs_changed") _

  abbrev size : Outcomes → ℕ
  size o = length o.reachable_times + length o.unreachable_times + o.no_convergence

  size-record_outcome : (ts : Times) (o : Outcomes) → size (record_outcome ts o) ≡ suc (size o)
  unfolding record_outcome
  size-record_outcome ts o = elim (Option-cases ts.reachable) [
    | inr (t, e) ↦ rw e (omega (arith, length-append o.reachable_times (t ∷ [])))
    | inl e ↦ elim (Option-cases ts.unreachable) [
      | inr (t, f) ↦ rw (e, f) (omega (arith, length-append o.unreachable_times (t ∷ [])))
      | inl f ↦ rw (e, f) (omega arith)
    ]
  ]

  size-traces_loop :
      (traces : Traces) (o : Outcomes) → size (traces_loop py traces o) ≡ length traces + size o
  unfolding traces_loop
  size-traces_loop [] o = omega arith
  size-traces_loop ((path, t) ∷ rest) o = omega (
    arith,
    size-traces_loop rest (record_outcome (times py t) o),
    size-record_outcome (times py t) o,
  )

  abbrev pub runs_of : Option Stats → ℕ
  runs_of none = 0
  runs_of (some s) = s.n

  -- The mean or the median of some values, if there are any, is too large for a float.
  abbrev pub AreTooLarge : List ℤ → Type 0
  AreTooLarge [] = ⊥
  AreTooLarge (v ∷ vs) = Overflows py (v ∷ vs)

  stats-n :
      (vs : List ℤ)
      → ((s : Option Stats) × (stats py vs ≡ some s) × (runs_of s ≡ length vs))
        ⊎ ((stats py vs ≡ none) × AreTooLarge vs)
  stats-n [] = inl (none, unfold stats in refl, refl)
  stats-n (v ∷ vs) = elim (stats-overflow py v vs) [
    | inl (s, e, n) ↦ inl (some s, e, n)
    | inr failed ↦ inr failed
  ]

  -- `compute_time_to_confidence` either returns, and every trace counts in exactly one of the
  -- reachable summary, the unreachable summary and the runs that did not converge. Or it raises the
  -- OverflowError of the mean or the median of the times of one of these summaries; it raises no
  -- IndexError.
  pub time_to_confidence_partition :
      (traces : Traces)
      → ((c : Confidence) × (compute_time_to_confidence py traces ≡ some c)
          × (c.total ≡ length traces)
          × (runs_of c.reachable + runs_of c.unreachable + c.no_convergence ≡ c.total))
        ⊎ ((compute_time_to_confidence py traces ≡ none)
            × (AreTooLarge (outcomes py traces).reachable_times
                ⊎ AreTooLarge (outcomes py traces).unreachable_times))
  unfolding compute_time_to_confidence
  time_to_confidence_partition traces =
      let o = outcomes py traces in
      elim (stats-n o.reachable_times) [
        | inr (e, why) ↦ inr (rw e refl, inl why)
        | inl (r, er, hr) ↦ elim (stats-n o.unreachable_times) [
          | inr (e, why) ↦ inr (rw (er, e) refl, inr why)
          | inl (u, eu, hu) ↦ inl (
            record {
              total = length traces;
              no_convergence = o.no_convergence;
              reachable = r;
              unreachable = u;
            },
            rw (er, eu) refl,
            refl,
            omega (
              arith,
              hr,
              hu,
              size-traces_loop traces
                  (record { reachable_times = []; unreachable_times = []; no_convergence = 0 }),
            ),
          )
        ]
      ]
