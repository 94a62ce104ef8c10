-- ===== src/Runner/Toggles.antt =====
-- `run_toggles` of testbed/run.py. What one phase sees of the clock and of Jaeger is a record; the
-- time stamps and prints of the results are left out.
pub mod Laws
use autonat_project.Base.{
  ℕ, zero, suc, ◌+◌, String, Bool, true, false, Option, none, some, List, [], ◌∷◌, ◌++◌, ◌==◌, map,
  ◌>>=◌, if◌then◌else◌, ◌≡◌, refl, ◌≤◌, ◌*◌, arith, Bool-cases, inl, inr, ap, ◌∙◌, All, length,
}
use autonat_project.Base.Int.{ℤ, pos, ◌≤ℤ◌}
use autonat_project.Scenario.Defs.{Toggle}
use autonat_project.Runner.Waits.{Clock, wait_for_new_span, wait_for_change}
use autonat_project.Runner.Waits.Laws.{Sleeps, wait_for_new_span_lem, wait_for_change_lem}

-- What the loops of one phase see, and the two counts before the toggle.
pub record Phase : Type 0 where
  pub first_elapsed : Clock
  pub first_again : Clock
  pub first_count : ℕ → ℕ
  pub prev_v1 : ℕ
  pub prev_v2 : ℕ
  pub elapsed : Clock
  pub cur_v1 : ℕ → ℕ
  pub cur_v2 : ℕ → ℕ
  -- Whether the router's script succeeds: `exec_router` runs it with `check=True`.
  pub exec_succeeds : Bool

-- What a phase does to the world: `time.sleep`, and the rules on the router.
pub data Effect : Type 0 where
  sleep_for : ℤ → Effect
  exec_toggle : String → Effect

pub record Outcome : Type 0 where
  pub phase : ℕ
  pub action : String
  pub detected : Bool
  pub time_to_detect_s : ℕ

-- The wait before the toggle. An action that was not seen to converge is toggled without the sleep.
unfoldable pub before_toggle : ℕ → Toggle → Phase → Option (List Effect)
before_toggle fuel t p =
    if t.wait_for == "converged"
    then (do
      (ok, e) ← wait_for_new_span fuel p.first_elapsed p.first_again p.first_count 0 t.timeout_s
      some (if ok then sleep_for t.sleep_s ∷ [] else []))
    else if t.wait_for == "sleep"
    then some (sleep_for t.sleep_s ∷ [])
    else some []

-- The body of the loop over the toggles: what it does, and its result. No result is the
-- CalledProcessError of a script that fails.
unfoldable pub run_phase : ℕ → ℕ → Toggle → Phase → Option (List Effect × Option Outcome)
unfolding before_toggle
run_phase fuel i t p = do
  waited ← before_toggle fuel t p
  if p.exec_succeeds
      then (do
        (detected, elapsed) ←
            wait_for_change fuel p.elapsed p.cur_v1 p.cur_v2 p.prev_v1 p.prev_v2 t.timeout_s
        some (
          waited ++ exec_toggle t.action ∷ [],
          some (record {
            phase = i + 1;
            action = t.action;
            detected = detected;
            time_to_detect_s = elapsed;
          }),
        ))
      else some (waited ++ exec_toggle t.action ∷ [], none)

abbrev pub cons_result : Outcome → Option (List Outcome) → Option (List Outcome)
cons_result r none = none
cons_result r (some rs) = some (r ∷ rs)

-- `none` is running out of fuel; no list of results is an exception that leaves the loop.
unfoldable pub toggles_from :
    ℕ → (ℕ → Phase) → ℕ → List Toggle → Option (List Effect × Option (List Outcome))
unfolding run_phase
toggles_from fuel world i [] = some ([], some [])
toggles_from fuel world i (t ∷ ts) = do
  (es, result) ← run_phase fuel i t (world i)
  elim result [
    | none ↦ some (es, none)
    | some r ↦ (do (fs, rs) ← toggles_from fuel world (i + 1) ts; some (es ++ fs, cons_result r rs))
  ]

unfoldable pub run_toggles :
    ℕ → (ℕ → Phase) → List Toggle → Option (List Effect × Option (List Outcome))
unfolding toggles_from
run_toggles fuel world toggles = toggles_from fuel world 0 toggles

-- The actions that were carried out on the router.
unfoldable pub executed : List Effect → List String
executed [] = []
executed (sleep_for n ∷ es) = executed es
executed (exec_toggle a ∷ es) = a ∷ executed es
