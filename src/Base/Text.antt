-- ===== src/Base/Text.antt =====
-- Python's text methods: `strip`, `isdigit`, and `int` and `str` between texts and integers.
pub mod Laws
pub mod Numbers
use Prim.Native.Nat.{ℕ, zero, suc, ◌+◌, ◌-◌, ◌*◌}
use Prim.Native.Char.{Char, code}
use Prim.Native.String.{String, ◌++◌ as ◌<>◌, count as char_count}
use text.Mathlib.Text.{starts_with}
use mathlib.Core.Path.{◌≡◌, refl}
use mathlib.Core.Bool.{Bool, true, false, ◌&&◌, ◌||◌}
use mathlib.Core.Option.{Option, none, some}
use autonat_project.Base.Tests.{leb, eqb, if◌then◌else◌}
use autonat_project.Base.Int.{ℤ, pos, negsuc}

-- `str.isspace` of a character
unfoldable pub is_space : ℕ → Bool
is_space c =
    (leb 9 c && leb c 13)
    || (leb 28 c && leb c 32)
    || eqb c 0x85
    || eqb c 0xa0
    || eqb c 0x1680
    || (leb 0x2000 c && leb c 0x200a)
    || (leb 0x2028 c && leb c 0x2029)
    || eqb c 0x202f
    || eqb c 0x205f
    || eqb c 0x3000

unfoldable pub lstrip : String → String
lstrip String.[] = String.[]
lstrip (String.◌∷◌ c s) = let rest = lstrip s in if is_space (code c) then rest else String.◌∷◌ c s

unfoldable pub rstrip_onto : Char → String → String
rstrip_onto c String.[] = if is_space (code c) then String.[] else String.◌∷◌ c String.[]
rstrip_onto c (String.◌∷◌ d s) = String.◌∷◌ c (String.◌∷◌ d s)

unfoldable pub rstrip : String → String
rstrip String.[] = String.[]
rstrip (String.◌∷◌ c s) = rstrip_onto c (rstrip s)

-- `s.strip()`
unfoldable pub strip : String → String
unfolding lstrip rstrip rstrip_onto is_space
strip s = rstrip (lstrip s)

abbrev pub is_empty : String → Bool
is_empty String.[] = true
is_empty (String.◌∷◌ c s) = false

unfoldable pub is_digit : ℕ → Bool
is_digit c = leb b'0' c && leb c b'9'

all_digits : String → Bool
all_digits String.[] = true
all_digits (String.◌∷◌ c s) = is_digit (code c) && all_digits s

-- `s.isdigit()`, for ASCII texts
unfoldable pub isdigit : String → Bool
unfolding all_digits is_digit
isdigit String.[] = false
isdigit (String.◌∷◌ c s) = all_digits (String.◌∷◌ c s)

-- Digits, with single underscores between them. The flag says that a digit has just been read.
unfoldable pub digits : Bool → ℕ → String → Option ℕ
digits true n String.[] = some n
digits false n String.[] = none
digits seen n (String.◌∷◌ c s) =
    let next = digits true (10 * n + (code c - b'0')) s in
    let skip = digits false n s in
    if is_digit (code c) then next else if eqb (code c) b'_' && seen then skip else none

unfoldable pub negate : ℕ → ℤ
negate zero = pos 0
negate (suc n) = negsuc n

abbrev pub of_digits : (ℕ → ℤ) → Option ℕ → Option ℤ
of_digits f none = none
of_digits f (some n) = some (f n)

unfoldable pub signed : String → Option ℤ
signed String.[] = none
signed (String.◌∷◌ c s) =
    if eqb (code c) b'-'
    then of_digits negate (digits false 0 s)
    else if eqb (code c) b'+'
    then of_digits pos (digits false 0 s)
    else of_digits pos (digits false 0 (String.◌∷◌ c s))

-- `int(s)`, for ASCII texts. `none` is the ValueError.
unfoldable pub int_of_text : String → Option ℤ
unfolding signed digits negate is_digit strip
int_of_text s = signed (strip s)

strip_runs : strip " \n a b\t" ≡ "a b"
unfolding strip
strip_runs = refl

int_of_text_runs : (int_of_text " -1_250 " ≡ some (negsuc 1249)) × (int_of_text "1__0" ≡ none)
unfolding int_of_text
int_of_text_runs = (refl, refl)

-- `s.replace(old, new)` for a text `old` that is not empty, from its code points. The number counts
-- the characters of a match that are still to be passed over.
unfoldable pub replace_from : String → String → ℕ → String → String
replace_from old new skip String.[] = String.[]
replace_from old new (suc skip) (String.◌∷◌ c s) = replace_from old new skip s
replace_from old new zero (String.◌∷◌ c s) =
    let found = new <> replace_from old new (char_count old - 1) s in
    let other = String.◌∷◌ c (replace_from old new zero s) in
    if starts_with (String.◌∷◌ c s) old then found else other

unfoldable pub replace : String → String → String → String
unfolding replace_from
replace old new s = replace_from old new zero s

replace_runs :
    (replace ".json" ".toggles.json" "a.json" ≡ "a.toggles.json")
    × (replace "lat" "" "lat200" ≡ "200")
unfolding replace
replace_runs = (refl, refl)
