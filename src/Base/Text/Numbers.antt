-- ===== src/Base/Text/Numbers.antt =====
-- `int` of a text that `str` gives for a number that is not negative.
use Prim.Native.Nat.{ℕ, zero, suc, ◌+◌, ◌*◌, ◌-◌, ◌≤◌, ◌<◌, ◌/◌, ◌%◌}
use Prim.Native.Char.{Char, code}
use Prim.Native.String.{String, ◌++◌ as ◌<>◌}
use mathlib.Core.Path.{◌≡◌, refl, ap, ◌∙◌}
use mathlib.Core.Logic.{inl, inr}
use mathlib.Core.Bool.{Bool, true, false}
use mathlib.Core.Option.{some}
use native.Mathlib.Omega.{arith}
use autonat_project.Base.Tests.{ltb, eqb, Bool-cases, ltb→lt}
use autonat_project.Base.Int.{pos}
use autonat_project.Base.Show.{digit, digits_onto, show_ℕ}
use autonat_project.Base.Text.{
  is_space, lstrip, rstrip_onto, rstrip, strip, is_digit, digits, of_digits, signed, int_of_text,
}
use autonat_project.Base.Text.Laws.{AllDigits, IsNumber, IsNumber-AllDigits, append_lem}

below_ten {ℓ} :
    (P : ℕ → Type ℓ)
    → P 0
    → P 1
    → P 2
    → P 3
    → P 4
    → P 5
    → P 6
    → P 7
    → P 8
    → P 9
    → (d : ℕ) → d < 10
    → P d
below_ten P p0 p1 p2 p3 p4 p5 p6 p7 p8 p9 zero h = p0
below_ten P p0 p1 p2 p3 p4 p5 p6 p7 p8 p9 (suc zero) h = p1
below_ten P p0 p1 p2 p3 p4 p5 p6 p7 p8 p9 (suc (suc zero)) h = p2
below_ten P p0 p1 p2 p3 p4 p5 p6 p7 p8 p9 (suc (suc (suc zero))) h = p3
below_ten P p0 p1 p2 p3 p4 p5 p6 p7 p8 p9 (suc (suc (suc (suc zero)))) h = p4
below_ten P p0 p1 p2 p3 p4 p5 p6 p7 p8 p9 (suc (suc (suc (suc (suc zero))))) h = p5
below_ten P p0 p1 p2 p3 p4 p5 p6 p7 p8 p9 (suc (suc (suc (suc (suc (suc zero)))))) h = p6
below_ten P p0 p1 p2 p3 p4 p5 p6 p7 p8 p9 (suc (suc (suc (suc (suc (suc (suc zero))))))) h = p7
below_ten P p0 p1 p2 p3 p4 p5 p6 p7 p8 p9 (suc (suc (suc (suc (suc (suc (suc (suc zero)))))))) h =
    p8
below_ten P p0 p1 p2 p3 p4 p5 p6 p7 p8 p9 (suc (suc (suc (suc (suc (suc (suc (suc (suc zero)))))))))
      h =
    p9
below_ten P p0 p1 p2 p3 p4 p5 p6 p7 p8 p9
      (suc (suc (suc (suc (suc (suc (suc (suc (suc (suc d)))))))))) h =
    absurd (omega arith)

-- The text of a digit is one character, the digit's.
DigitText : ℕ → Type 0
DigitText d =
    (c : Char) × (digit d ≡ String.◌∷◌ c String.[])
    × (is_digit (code c) ≡ true)
    × (code c - b'0' ≡ d)

digit-DigitText : (d : ℕ) → d < 10 → DigitText d
unfolding digit is_digit DigitText
digit-DigitText =
    below_ten DigitText ("0", refl, refl, refl) ("1", refl, refl, refl) ("2", refl, refl, refl)
      ("3", refl, refl, refl) ("4", refl, refl, refl) ("5", refl, refl, refl)
      ("6", refl, refl, refl) ("7", refl, refl, refl) ("8", refl, refl, refl)
      ("9", refl, refl, refl)

pub digits-digit :
    (seen : Bool) (m d : ℕ) (rest : String)
    → d < 10
    → digits seen m (digit d <> rest) ≡ digits true (10 * m + d) rest
unfolding digits DigitText
digits-digit true m d rest h =
    let t = digit-DigitText d h in
    rw (t.1, append_lem (String.◌∷◌ (t.0) "") rest, digits, t.2, t.3) refl
digits-digit false m d rest h =
    let t = digit-DigitText d h in
    rw (t.1, append_lem (String.◌∷◌ (t.0) "") rest, digits, t.2, t.3) refl

first_digit :
    (seen : Bool) (n : ℕ) (rest : String)
    → n < 10
    → digits seen 0 (digit n <> rest) ≡ digits true n rest
first_digit seen n rest h =
    digits-digit seen 0 n rest h ∙ ap (λ m. digits true m rest) (omega arith)

digit-IsNumber : (d : ℕ) (rest : String) → d < 10 → AllDigits rest → IsNumber (digit d <> rest)
unfolding DigitText
digit-IsNumber d rest h all =
    let t = digit-DigitText d h in rw (t.1, append_lem (String.◌∷◌ (t.0) "") rest) (t.2, all)

digits_onto-IsNumber :
    (fuel n : ℕ) (rest : String) → n ≤ fuel → AllDigits rest → IsNumber (digits_onto fuel n rest)
unfolding digits_onto
digits_onto-IsNumber zero n rest h all = digit-IsNumber n rest (omega arith) all
digits_onto-IsNumber (suc fuel) n rest h all =
    let tail = digit-IsNumber (n % 10) rest (omega arith) all in
    let more =
      digits_onto-IsNumber fuel (n / 10) (digit (n % 10) <> rest) (omega arith)
        (IsNumber-AllDigits _ tail) in
    elim (Bool-cases (ltb n 10)) [
      | inl e ↦ rw (digits_onto, e) (digit-IsNumber n rest (ltb→lt n 10 e) all)
      | inr e ↦ rw (digits_onto, e) more
    ]

digits-digits_onto :
    (fuel n : ℕ) (seen : Bool) (rest : String)
    → n ≤ fuel
    → digits seen 0 (digits_onto fuel n rest) ≡ digits true n rest
unfolding digits_onto
digits-digits_onto zero n seen rest h = first_digit seen n rest (omega arith)
digits-digits_onto (suc fuel) n seen rest h = elim (Bool-cases (ltb n 10)) [
  | inl e ↦ rw (digits_onto, e) (first_digit seen n rest (ltb→lt n 10 e))
  | inr e ↦
      rw (digits_onto, e)
        (digits-digits_onto fuel (n / 10) seen (digit (n % 10) <> rest) (omega arith)
          ∙ digits-digit true (n / 10) (n % 10) rest (omega arith)
          ∙ ap (λ m. digits true m rest) (omega arith))
]

-- No character of a number is white space or a sign.
digit-not_space : (c : ℕ) → is_digit c ≡ true → is_space c ≡ false
unfolding is_digit is_space
digit-not_space c h = ground arith

digit-not_sign : (c : ℕ) → is_digit c ≡ true → (eqb c b'-' ≡ false) × (eqb c b'+' ≡ false)
unfolding is_digit
digit-not_sign c h = (ground arith, ground arith)

rstrip_digits : (s : String) → AllDigits s → rstrip s ≡ s
unfolding rstrip rstrip_onto
rstrip_digits String.[] h = refl
rstrip_digits (String.◌∷◌ c String.[]) h =
    rw (rstrip, rstrip_onto, digit-not_space (code c) h.0) refl
rstrip_digits (String.◌∷◌ c (String.◌∷◌ d s)) h =
    ap (rstrip_onto c) (rstrip_digits (String.◌∷◌ d s) h.1)

strip_number : (s : String) → IsNumber s → strip s ≡ s
unfolding strip lstrip
strip_number String.[] h = elim h [ ]
strip_number (String.◌∷◌ c s) h =
    rw (lstrip, digit-not_space (code c) h.0) (rstrip_digits (String.◌∷◌ c s) h)

signed_number : (s : String) → IsNumber s → signed s ≡ of_digits pos (digits false 0 s)
unfolding signed
signed_number String.[] h = elim h [ ]
signed_number (String.◌∷◌ c s) h = let f = digit-not_sign (code c) h.0 in rw (signed, f.0, f.1) refl

pub show_ℕ-IsNumber : (n : ℕ) → IsNumber (show_ℕ n)
unfolding show_ℕ
show_ℕ-IsNumber n = digits_onto-IsNumber n n "" (omega arith) tt

digits-show_ℕ : (n : ℕ) → digits false 0 (show_ℕ n) ≡ some n
unfolding show_ℕ digits
digits-show_ℕ n = digits-digits_onto n n false "" (omega arith)

pub int_of_text-show_ℕ : (n : ℕ) → int_of_text (show_ℕ n) ≡ some (pos n)
unfolding int_of_text
int_of_text-show_ℕ n =
    rw (strip_number (show_ℕ n) (show_ℕ-IsNumber n), signed_number (show_ℕ n) (show_ℕ-IsNumber n))
      (ap (of_digits pos) (digits-show_ℕ n))
