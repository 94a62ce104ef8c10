-- ===== src/Runner/Waits/Laws.antt =====
-- The polling loops end, and with what.
use mathlib.Core.Path.{subst}
use autonat_project.Base.{
  ℕ, zero, suc, ◌+◌, ◌*◌, ◌≤◌, ◌<◌, eqb, ◌≡◌, refl, Bool, true, false, ◌||◌, some, ltb, arith,
  Bool-cases, inl, inr, ◌⊎◌,
}
use autonat_project.Base.Int.{ℤ, pos, leb_ℤ, ◌≤ℤ◌}
use autonat_project.Runner.Waits.{
  Clock, poll, wait_for_convergence, wait_for_new_span, wait_for_change,
}

-- `time.sleep(3)` sleeps at least three seconds.
abbrev pub Sleeps : Clock → Type 0
Sleeps elapsed = (k : ℕ) → 3 * k ≤ elapsed k

-- The round that a wait ends in, and its answer: no round before it timed out or found anything,
-- and it either found something in time or timed out.
pub record EndsIn (timeout : ℤ) (elapsed : Clock) (found : ℕ → Bool) (report : ℕ → ℕ) (from : ℕ)
    (b : Bool) (e : ℕ) : Type 0 where
  pub round : ℕ
  pub later : from ≤ round
  pub unfinished :
      (j : ℕ) → from ≤ j → j < round → (found j ≡ false) × (leb_ℤ timeout (pos (elapsed j)) ≡ false)
  pub answer :
      ((b ≡ true)
        × ((found round ≡ true)
            × ((leb_ℤ timeout (pos (elapsed round)) ≡ false) × (e ≡ report round))))
      ⊎ ((b ≡ false) × ((timeout ≤ℤ pos (elapsed round)) × (e ≡ elapsed round)))

-- A loop that is late in round `bound` at the latest.
module _ (timeout : ℤ) (elapsed : Clock) (found : ℕ → Bool) (report : ℕ → ℕ) (bound : ℕ)
    (due : timeout ≤ℤ pos (elapsed bound)) where
  -- A round that neither times out nor finds anything.
  continued :
      (k : ℕ)
      → leb_ℤ timeout (pos (elapsed k)) ≡ false
      → found k ≡ false
      → (b : Bool) (e : ℕ) → EndsIn timeout elapsed found report (k + 1) b e
      → EndsIn timeout elapsed found report k b e
  continued k early unfound b e is = record {
    round = is.round;
    later = omega (arith, is.later);
    unfinished = λ j a c. elim (Bool-cases (eqb j k)) [
      | inl same ↦ let q : j ≡ k = ground arith in rw q (unfound, early)
      | inr other ↦ is.unfinished j (ground arith) c
    ];
    answer = is.answer;
  }

  pub poll-EndsIn :
      (fuel k : ℕ)
      → k + fuel ≡ bound
      → (b : Bool) × (e : ℕ) × (poll (suc fuel) timeout elapsed found report k ≡ some (b, e))
        × EndsIn timeout elapsed found report k b e
  unfolding poll
  poll-EndsIn zero k h = (
    false,
    elapsed k,
    rw late refl,
    record {
      round = k;
      later = omega arith;
      unfinished = λ j a b. absurd (omega arith);
      answer = inr (refl, (is_late, refl));
    },
  )
    where
      is_late : timeout ≤ℤ pos (elapsed k)
      is_late =
          let e : bound ≡ k = omega (arith, h) in
          subst (λ (n : ℕ). timeout ≤ℤ pos (elapsed n)) e due

      late : leb_ℤ timeout (pos (elapsed k)) ≡ true
      late = ground (arith, is_late)
  poll-EndsIn (suc fuel) k h = elim (Bool-cases (leb_ℤ timeout (pos (elapsed k)))) [
    | inl late ↦ (
      false,
      elapsed k,
      rw late refl,
      record {
        round = k;
        later = omega arith;
        unfinished = λ j a b. absurd (omega arith);
        answer = inr (refl, (ground arith, refl));
      },
    )
    | inr early ↦ elim (Bool-cases (found k)) [
      | inl seen ↦ (
        true,
        report k,
        rw (early, seen) refl,
        record {
          round = k;
          later = omega arith;
          unfinished = λ j a b. absurd (omega arith);
          answer = inl (refl, (seen, (early, refl)));
        },
      )
      | inr unfound ↦
          let (b, e, eq, is) = poll-EndsIn fuel (k + 1) (omega arith) in
          (b, e, rw (early, unfound) eq, continued k early unfound b e is)
    ]
  ]

-- While a sleep of three seconds lasts no less, `wait_for_convergence` returns within a third of the
-- timeout's seconds and one more round: with True and the time of the first round in which a
-- convergence span was seen, if no round up to it was late, else with False and the time of the
-- first late round.
pub wait_for_convergence_lem :
    (fuel : ℕ) (elapsed : Clock) (has_span : ℕ → Bool) (timeout : ℤ)
    → Sleeps elapsed
    → timeout ≤ℤ pos (3 * fuel)
    → (b : Bool) × (e : ℕ) × (wait_for_convergence (suc fuel) elapsed has_span timeout
        ≡ some (b, e))
      × EndsIn timeout elapsed has_span elapsed 0 b e
unfolding wait_for_convergence
wait_for_convergence_lem fuel elapsed has_span timeout sleeps h =
    poll-EndsIn timeout elapsed has_span elapsed fuel (omega (arith, sleeps fuel, h)) fuel 0
      (omega arith)

-- The same of `wait_for_new_span`, which waits for more spans than there were, and returns the time
-- that is read once more after these were counted.
pub wait_for_new_span_lem :
    (fuel : ℕ) (elapsed again : Clock) (current : ℕ → ℕ) (prev_count : ℕ) (timeout : ℤ)
    → Sleeps elapsed
    → timeout ≤ℤ pos (3 * fuel)
    → (b : Bool) × (e : ℕ) × (wait_for_new_span (suc fuel) elapsed again current prev_count timeout
        ≡ some (b, e))
      × EndsIn timeout elapsed (λ k. ltb prev_count (current k)) again 0 b e
unfolding wait_for_new_span
wait_for_new_span_lem fuel elapsed again current prev_count timeout sleeps h =
    poll-EndsIn timeout elapsed _ again fuel (omega (arith, sleeps fuel, h)) fuel 0 (omega arith)

-- The same of the loop that waits for the effect of a toggle.
pub wait_for_change_lem :
    (fuel : ℕ) (elapsed : Clock) (cur_v1 cur_v2 : ℕ → ℕ) (prev_v1 prev_v2 : ℕ) (timeout : ℤ)
    → Sleeps elapsed
    → timeout ≤ℤ pos (3 * fuel)
    → (b : Bool) × (e : ℕ) × (wait_for_change
          (suc fuel)
          elapsed
          cur_v1
          cur_v2
          prev_v1
          prev_v2
          timeout
        ≡ some (b, e))
      × EndsIn timeout elapsed (λ k. ltb prev_v1 (cur_v1 k) || ltb prev_v2 (cur_v2 k)) elapsed 0 b e
unfolding wait_for_change
wait_for_change_lem fuel elapsed cur_v1 cur_v2 prev_v1 prev_v2 timeout sleeps h =
    poll-EndsIn timeout elapsed _ elapsed fuel (omega (arith, sleeps fuel, h)) fuel 0 (omega arith)
