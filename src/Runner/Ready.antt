-- ===== src/Runner/Ready.antt =====
-- `Jaeger.wait_ready`, `wait_for_healthy` and the observation after convergence, of testbed/run.py.
pub mod Laws
use autonat_project.Base.{
  ℕ, zero, suc, ◌+◌, Bool, true, false, not, Option, none, some, List, [], ◌∷◌, eqb, if◌then◌else◌,
  count, ◌&&◌,
}
use autonat_project.Base.Int.{ℤ, pos, leb_ℤ, ltb_ℤ}
use autonat_project.Json.{Json, null, Fields, field?, default, truthy, is_text}
use autonat_project.Runner.Waits.{Clock, poll}

-- `answers` says in which rounds `_get("/api/v3/services")` gives an answer.
unfoldable pub wait_ready : ℕ → Clock → (ℕ → Bool) → ℤ → Option (Bool × ℕ)
unfolding poll
wait_ready fuel elapsed answers timeout = poll fuel timeout elapsed answers elapsed 0

-- `item.get("Health") and item.get("Health") != "healthy"`
unfoldable pub is_unhealthy : Fields → Bool
is_unhealthy item =
    let health = default null (field? "Health" item) in
    truthy health && not (is_text "healthy" health)

-- `items` are the objects that `ps_json` returns in a round.
unfoldable pub wait_for_healthy : ℕ → Clock → (ℕ → List Fields) → ℤ → Option (Bool × ℕ)
unfolding poll is_unhealthy count
wait_for_healthy fuel elapsed items timeout =
    poll fuel timeout elapsed (λ k. eqb (count is_unhealthy (items k)) 0) elapsed 0

-- A query that found something replaces what there was.
abbrev pub latest {ℓ} : {A : Type ℓ} → List A → List A → List A
latest [] spans = spans
latest (s ∷ new_spans) spans = s ∷ new_spans

-- The loop that observes for `obs` seconds: `elapsed` is the clock at its test, `new_spans` what a
-- round's query gives. `none` is running out of fuel.
unfoldable pub observe {ℓ} :
    {A : Type ℓ} → ℕ → ℤ → Clock → (ℕ → List A) → ℕ → List A → Option (List A)
observe zero obs elapsed new_spans k spans = none
observe (suc fuel) obs elapsed new_spans k spans =
    let rest = observe fuel obs elapsed new_spans (k + 1) (latest (new_spans k) spans) in
    if ltb_ℤ (pos (elapsed k)) obs then rest else some spans
