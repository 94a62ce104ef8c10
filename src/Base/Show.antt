-- ===== src/Base/Show.antt =====
-- `str(n)` of an integer, by its decimal digits.
use Prim.Native.Nat.{ℕ, zero, suc, ◌/◌, ◌%◌}
use Prim.Native.String.{String, ◌++◌ as ◌<>◌}
use mathlib.Core.Path.{◌≡◌, refl}
use autonat_project.Base.Int.{ℤ, pos, negsuc}
use autonat_project.Base.Tests.{ltb, eqb, if◌then◌else◌}

unfoldable pub digit : ℕ → String
digit d =
    if eqb d 0
    then "0"
    else if eqb d 1
    then "1"
    else if eqb d 2
    then "2"
    else if eqb d 3
    then "3"
    else if eqb d 4
    then "4"
    else if eqb d 5
    then "5"
    else if eqb d 6
    then "6"
    else if eqb d 7
    then "7"
    else if eqb d 8
    then "8"
    else "9"

-- The digits of `n` before `rest`. A number above zero is more than its tenth, so that `n` rounds
-- are enough.
unfoldable pub digits_onto : ℕ → ℕ → String → String
digits_onto zero n rest = digit n <> rest
digits_onto (suc fuel) n rest =
    let more = digits_onto fuel (n / 10) (digit (n % 10) <> rest) in
    if ltb n 10 then digit n <> rest else more

unfoldable pub show_ℕ : ℕ → String
unfolding digits_onto digit
show_ℕ n = digits_onto n n ""

unfoldable pub show : ℤ → String
unfolding show_ℕ
show (pos n) = show_ℕ n
show (negsuc n) = "-" <> show_ℕ (suc n)

show_runs : (show (pos 1250) ≡ "1250") × (show (pos 0) ≡ "0") × (show (negsuc 9) ≡ "-10")
unfolding show
show_runs = (refl, refl, refl)
