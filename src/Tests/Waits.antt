-- ===== src/Tests/Waits.antt =====
-- The waits and toggles, against a clock that advances by four seconds in each round.
use autonat_project.Base.{eqb, ◌≤◌, inl, if◌then◌else◌}
use autonat_project.Json.{Fields, field, end, str}
use autonat_project.Runner.Ready.{observe}
use autonat_project.Runner.Ready.Laws.{LastsTo, IsLast, observe_lem}
use autonat_project.Base.{ℕ, ◌*◌, ◌≡◌, refl, Bool, true, false, List, [], ◌∷◌, some, ltb, arith}
use autonat_project.Base.Int.{pos}
use autonat_project.Scenario.Defs.{Toggle}
use autonat_project.Runner.Waits.{Clock, wait_for_convergence}
use autonat_project.Runner.Waits.Laws.{Sleeps, EndsIn, wait_for_convergence_lem}
use autonat_project.Runner.Toggles.{Phase}

abbrev clock : Clock
clock k = 4 * k

clock-Sleeps : Sleeps clock
clock-Sleeps k = omega arith

-- Something is there from the third round on.
abbrev from_third : ℕ → Bool
from_third k = ltb 1 k

abbrev spans : ℕ → ℕ
spans k = k

wait_run : wait_for_convergence 11 clock from_third (pos 30) ≡ some (true, 8)
unfolding wait_for_convergence
wait_run = refl

timeout_run : wait_for_convergence 11 clock (λ k. false) (pos 30) ≡ some (false, 32)
unfolding wait_for_convergence
timeout_run = refl

wait_for_convergence_lem_example :
    (b : Bool) × (e : ℕ) × (wait_for_convergence 11 clock from_third (pos 30) ≡ some (b, e))
    × EndsIn (pos 30) clock from_third clock 0 b e
wait_for_convergence_lem_example =
    wait_for_convergence_lem 10 clock from_third (pos 30) clock-Sleeps (omega arith)

-- A server that docker calls starting in the first two rounds, beside a container without a check.
abbrev items : ℕ → List Fields
items k =
    field "Health" (str (if ltb k 2 then "starting" else "healthy")) end
    ∷ field "Health" (str "") end
    ∷ []

abbrev minutes : Clock
minutes k = 60 * k

-- Only the first two queries find anything.
abbrev polled : ℕ → List ℕ
polled k = if ltb k 2 then k ∷ [] else []

observe_lem_example :
    (n : ℕ) × (result : List ℕ) × (n ≤ 4)
    × (observe 5 (pos 200) minutes polled 0 [] ≡ some result)
    × LastsTo (pos 200) minutes 0 n
    × IsLast polled 0 n [] result
observe_lem_example = observe_lem (pos 200) minutes polled (λ k. inl (omega arith)) 4 (omega arith)

abbrev pub world : ℕ → Phase
world i = record {
  first_elapsed = clock;
  first_again = clock;
  first_count = spans;
  prev_v1 = 0;
  prev_v2 = 2;
  elapsed = clock;
  cur_v1 = λ k. 0;
  cur_v2 = spans;
  exec_succeeds = eqb i 0;
}

abbrev toggles : List Toggle
toggles =
    record {
      action = "add_port_forward";
      wait_for = "converged";
      sleep_s = pos 5;
      timeout_s = pos 30;
    }
    ∷ record {
      action = "remove_port_forward";
      wait_for = "sleep";
      sleep_s = pos 5;
      timeout_s = pos 9;
    }
    ∷ []
