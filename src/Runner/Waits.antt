-- ===== src/Runner/Waits.antt =====
-- The polling loops of testbed/run.py: `wait_for_convergence`, `wait_for_new_span` and the loop in
-- `run_toggles`. What a loop sees of the clock and of Jaeger in each of its rounds is a function of
-- the round's number; the prints are left out.
pub mod Laws
use autonat_project.Base.{
  ℕ, zero, suc, ◌+◌, Bool, true, false, ◌||◌, Option, none, some, ltb, if◌then◌else◌,
}
use autonat_project.Base.Int.{ℤ, pos, leb_ℤ}

-- `int(time.time() - start)` as the rounds read it.
abbrev pub Clock : Type 0
Clock = ℕ → ℕ

-- The loop: first the timeout is tested, then what is waited for. `report` is the time that is
-- returned when it was found. `none` is running out of fuel.
unfoldable pub poll : ℕ → ℤ → Clock → (ℕ → Bool) → (ℕ → ℕ) → ℕ → Option (Bool × ℕ)
poll zero timeout elapsed found report k = none
poll (suc fuel) timeout elapsed found report k =
    let rest = poll fuel timeout elapsed found report (k + 1) in
    if leb_ℤ timeout (pos (elapsed k))
    then some (false, elapsed k)
    else if found k
    then some (true, report k)
    else rest

-- `has_span` is `jaeger.has_convergence_span(start_time)`.
unfoldable pub wait_for_convergence : ℕ → Clock → (ℕ → Bool) → ℤ → Option (Bool × ℕ)
unfolding poll
wait_for_convergence fuel elapsed has_span timeout = poll fuel timeout elapsed has_span elapsed 0

-- `current` is `count_jaeger_spans(…)`, and `again` the second reading of the clock.
unfoldable pub wait_for_new_span : ℕ → Clock → Clock → (ℕ → ℕ) → ℕ → ℤ → Option (Bool × ℕ)
unfolding poll
wait_for_new_span fuel elapsed again current prev_count timeout =
    poll fuel timeout elapsed (λ k. ltb prev_count (current k)) again 0

-- The loop that waits for the effect of a toggle.
unfoldable pub wait_for_change : ℕ → Clock → (ℕ → ℕ) → (ℕ → ℕ) → ℕ → ℕ → ℤ → Option (Bool × ℕ)
unfolding poll
wait_for_change fuel elapsed cur_v1 cur_v2 prev_v1 prev_v2 timeout =
    poll fuel timeout elapsed (λ k. ltb prev_v1 (cur_v1 k) || ltb prev_v2 (cur_v2 k)) elapsed 0
