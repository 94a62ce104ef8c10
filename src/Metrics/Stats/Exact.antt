-- ===== src/Metrics/Stats/Exact.antt =====
-- The mean and the median as exact numbers, rounded once: what the library's floats come to for
-- numbers that are small enough.
use autonat_project.Base.{
  ℕ, zero, suc, ◌+◌, ◌-◌, ◌*◌, ◌/◌, ◌%◌, Option, some, List, length, get_elem?, ltb, eqb,
  if◌then◌else◌, ◌>>=◌,
}
use autonat_project.Base.Int.{ℤ, pos, negsuc, ◌+ℤ◌}
use autonat_project.Metrics.Stats.{sum}

-- `round(a / n)`, where a half goes to the even neighbour.
unfoldable pub round_div_ℕ : ℕ → ℕ → ℕ
round_div_ℕ a n =
    let q = a / n in
    let r = a % n in if ltb (2 * r) n then q else if ltb n (2 * r) then q + 1 else q + q % 2

unfoldable pub negate : ℕ → ℤ
negate zero = pos 0
negate (suc n) = negsuc n

unfoldable pub round_div : ℤ → ℕ → ℤ
unfolding round_div_ℕ negate
round_div (pos a) n = pos (round_div_ℕ a n)
round_div (negsuc a) n = negate (round_div_ℕ (suc a) n)

-- `statistics.median` of a sorted list, as twice its value: an even number of values has the mean
-- of the middle two. `none` is an index out of range.
unfoldable pub median_twice : List ℤ → Option ℤ
unfolding ◌+ℤ◌
median_twice vs =
    let m = length vs / 2 in
    if eqb (length vs % 2) 1
    then (do v ← get_elem? vs m; some (v +ℤ v))
    else (do v ← get_elem? vs (m - 1); w ← get_elem? vs m; some (v +ℤ w))

unfoldable pub mean_exact : List ℤ → Option ℤ
unfolding sum round_div
mean_exact vs = some (round_div (sum vs) (length vs))

unfoldable pub median_exact : List ℤ → Option ℤ
unfolding median_twice round_div
median_exact vs = do twice ← median_twice vs; some (round_div twice 2)
