-- ===== src/Nebula/Dialable/Laws.antt =====
-- The days that `chart_dialable_over_time` marks.
use autonat_project.Base.{
  ℕ, zero, suc, ◌+◌, ◌-◌, ◌*◌, ◌≤◌, ◌<◌, ◌≡◌, refl, ap, String, List, [], ◌∷◌, length, get_elem?,
  arith,
}
use autonat_project.Nebula.Dialable.{every, step_of, ticks}

module _ {A : Type 0} (gap : ℕ) where
  -- Each item that is kept, by its place.
  get_elem?-every :
      (skip : ℕ) (xs : List A) (i k : ℕ)
      → k ≡ i * suc gap + skip
      → get_elem? (every gap skip xs) i ≡ get_elem? xs k
  unfolding every
  get_elem?-every skip [] i k e = refl
  get_elem?-every (suc skip) (x ∷ xs) i zero e = absurd (omega arith)
  get_elem?-every (suc skip) (x ∷ xs) i (suc k) e = get_elem?-every skip xs i k (omega arith)
  get_elem?-every zero (x ∷ xs) zero zero e = refl
  get_elem?-every zero (x ∷ xs) zero (suc k) e = absurd (grind arith)
  get_elem?-every zero (x ∷ xs) (suc i) zero e = absurd (grind arith)
  get_elem?-every zero (x ∷ xs) (suc i) (suc k) e = get_elem?-every gap xs i k (grind arith)

  -- The first item is among those that are kept, and the last ones reach to the end.
  length-every :
      (skip : ℕ) (xs : List A)
      → skip ≤ gap
      → (length (every gap skip xs) * suc gap + skip ≤ length xs + gap)
        × (length xs ≤ length (every gap skip xs) * suc gap + skip)
  unfolding every
  length-every skip [] h = omega arith
  length-every zero (x ∷ xs) h = grind (arith, length-every gap xs)
  length-every (suc skip) (x ∷ xs) h = omega (arith, length-every skip xs (omega arith))

step_of_lem : (n : ℕ) → (0 < step_of n) × (n < 10 * step_of n + 10)
unfolding step_of
step_of_lem n = ground arith

few : (l gap n : ℕ) → l * suc gap ≤ n + gap → n < 10 * suc gap + 10 → l ≤ 19
few l gap n h below = grind arith

same_product : (i step gap : ℕ) → step ≡ suc gap → i * step ≡ i * suc gap
same_product i step gap e = ap (λ (s : ℕ). i * s) e

-- Whatever the number of days, at most 19 are marked: the first one and then every `step`th, to the end
-- of the list, where `step` is a tenth of their number, and at least 1.
pub ticks_lem :
    (days : List String)
    → let step = step_of (length days) in
      (length (ticks days) ≤ 19)
      × ((i : ℕ) → get_elem? (ticks days) i ≡ get_elem? days (i * step))
      × (length days ≤ length (ticks days) * step)
unfolding ticks
ticks_lem days =
    let n = length days in
    let (positive, below) = step_of_lem n in
    let gap = step_of n - 1 in
    let e : step_of n ≡ suc gap = omega arith in
    let (short, full) = length-every gap 0 days (omega arith) in
    let kept = length (ticks days) in
    (
      few kept gap n (omega arith) (omega arith),
      λ i.
          get_elem?-every gap 0 days i (i * step_of n)
            (omega (arith, same_product i (step_of n) gap e)),
      omega (arith, same_product kept (step_of n) gap e),
    )
