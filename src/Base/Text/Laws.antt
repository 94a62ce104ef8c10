-- ===== src/Base/Text/Laws.antt =====
-- Texts of digits, and the removal of a part of a text.
use Prim.Native.Nat.{ℕ, suc, ◌-◌}
use Prim.Native.Char.{Char, code}
use Prim.Native.String.{String, ◌++◌ as ◌<>◌, count as char_count}
use text.Mathlib.Text.{starts_with}
use text.Mathlib.TextEquality.{starts_with_iff}
use text.Mathlib.TextPositions.{starts_with-append}
use text.Mathlib.TextLemmas.{
  nil-append, cons-append, length-nil, length-cons, head-eq_of_cons-eq, tail-eq_of_cons-eq,
}
use mathlib.Core.Path.{◌≡◌, refl, sym, ap, ◌∙◌}
use mathlib.Core.Logic.{inl, inr}
use mathlib.Core.Bool.{true, false}
use native.Mathlib.Omega.{arith}
use autonat_project.Base.Tests.{eqb, Bool-cases}
use autonat_project.Base.Text.{is_digit, replace_from, replace}

-- No character of the text has this code.
abbrev pub Avoids : ℕ → String → Type 0
Avoids k String.[] = Unit
Avoids k (String.◌∷◌ c s) = (eqb (code c) k ≡ false) × Avoids k s

abbrev pub AllDigits : String → Type 0
AllDigits String.[] = Unit
AllDigits (String.◌∷◌ c s) = (is_digit (code c) ≡ true) × AllDigits s

-- At least one digit, and nothing else.
abbrev pub IsNumber : String → Type 0
IsNumber String.[] = ⊥
IsNumber (String.◌∷◌ c s) = (is_digit (code c) ≡ true) × AllDigits s

pub IsNumber-AllDigits : (s : String) → IsNumber s → AllDigits s
IsNumber-AllDigits String.[] h = elim h [ ]
IsNumber-AllDigits (String.◌∷◌ c s) h = h

-- `s <> t`, by the characters of `s`.
abbrev pub onto : String → String → String
onto String.[] t = t
onto (String.◌∷◌ c s) t = String.◌∷◌ c (onto s t)

pub append_lem : (s t : String) → s <> t ≡ onto s t
append_lem String.[] t = nil-append t
append_lem (String.◌∷◌ c s) t = cons-append c s t ∙ ap (λ u. String.◌∷◌ c u) (append_lem s t)

pub onto_assoc : (s t u : String) → onto (onto s t) u ≡ onto s (onto t u)
onto_assoc String.[] t u = refl
onto_assoc (String.◌∷◌ c s) t u = ap (λ v. String.◌∷◌ c v) (onto_assoc s t u)

pub onto_nil : (s : String) → onto s "" ≡ s
onto_nil String.[] = refl
onto_nil (String.◌∷◌ c s) = ap (λ v. String.◌∷◌ c v) (onto_nil s)

pub Avoids-onto : (k : ℕ) (s t : String) → Avoids k s → Avoids k t → Avoids k (onto s t)
Avoids-onto k String.[] t h g = g
Avoids-onto k (String.◌∷◌ c s) t h g = (h.0, Avoids-onto k s t h.1 g)

digit-other : (c k : ℕ) → is_digit c ≡ true → is_digit k ≡ false → eqb c k ≡ false
unfolding is_digit
digit-other c k h g = ground arith

pub AllDigits-Avoids : (k : ℕ) (s : String) → is_digit k ≡ false → AllDigits s → Avoids k s
AllDigits-Avoids k String.[] g h = tt
AllDigits-Avoids k (String.◌∷◌ c s) g h = (digit-other (code c) k h.0 g, AllDigits-Avoids k s g h.1)

eqb_refl : (n : ℕ) → eqb n n ≡ true
eqb_refl n = ground arith

pub starts-first :
    (c d : Char) (s t : String)
    → eqb (code c) (code d) ≡ false
    → starts_with (String.◌∷◌ c s) (String.◌∷◌ d t) ≡ false
starts-first c d s t h = elim (Bool-cases (starts_with (String.◌∷◌ c s) (String.◌∷◌ d t))) [
  | inr no_prefix ↦ no_prefix
  | inl found ↦
      let p = (starts_with_iff (String.◌∷◌ c s) (String.◌∷◌ d t)).0 found in
      let same = head-eq_of_cons-eq (sym (append_lem (String.◌∷◌ d t) p.0) ∙ p.1) in
      absurd (cc (h, ap (λ x. eqb (code x) (code d)) same, eqb_refl (code d)))
]

pub starts-onto : (s t : String) → starts_with (onto s t) s ≡ true
starts-onto s t = rw⁻¹ (append_lem s t) (starts_with-append s t)

pub starts-inverse : (s p : String) → starts_with s p ≡ true → (u : String) × (onto p u ≡ s)
starts-inverse s p h = let f = (starts_with_iff s p).0 h in (f.0, sym (append_lem p f.0) ∙ f.1)

pub replace_from-Avoids :
    (d : Char) (old new s t : String)
    → Avoids (code d) s
    → replace_from (String.◌∷◌ d old) new 0 (onto s t)
      ≡ onto s (replace_from (String.◌∷◌ d old) new 0 t)
unfolding replace_from
replace_from-Avoids d old new String.[] t h = refl
replace_from-Avoids d old new (String.◌∷◌ c s) t h =
    rw (replace_from, starts-first c d (onto s t) old h.0)
      (ap (λ v. String.◌∷◌ c v) (replace_from-Avoids d old new s t h.1))

passed_over :
    (old new t s : String)
    → replace_from old new (char_count t) (onto t s) ≡ replace_from old new 0 s
unfolding replace_from
passed_over old new String.[] s = rw (length-nil) refl
passed_over old new (String.◌∷◌ c t) s = rw (length-cons c t) (passed_over old new t s)

less_one : (n : ℕ) → suc n - 1 ≡ n
less_one n = ground arith

replace_from-found :
    (d : Char) (old s : String)
    → replace_from (String.◌∷◌ d old) "" 0 (onto (String.◌∷◌ d old) s)
      ≡ replace_from (String.◌∷◌ d old) "" 0 s
unfolding replace_from
replace_from-found d old s =
    rw
      (replace_from, starts-onto (String.◌∷◌ d old) s, length-cons d old, less_one (char_count old))
      (nil-append _ ∙ passed_over (String.◌∷◌ d old) "" old s)

pub replace-prefix :
    (d : Char) (old s : String)
    → Avoids (code d) s
    → replace (String.◌∷◌ d old) "" (onto (String.◌∷◌ d old) s) ≡ s
unfolding replace replace_from
replace-prefix d old s h =
    replace_from-found d old s
    ∙ ap (replace_from (String.◌∷◌ d old) "" 0) (sym (onto_nil s))
    ∙ replace_from-Avoids d old "" s "" h
    ∙ onto_nil s

pub replace-suffix :
    (d : Char) (old s : String)
    → Avoids (code d) s
    → replace (String.◌∷◌ d old) "" (onto s (String.◌∷◌ d old)) ≡ s
unfolding replace replace_from
replace-suffix d old s h =
    replace_from-Avoids d old "" s (String.◌∷◌ d old) h
    ∙ ap (onto s) (
        ap (replace_from (String.◌∷◌ d old) "" 0) (sym (onto_nil (String.◌∷◌ d old)))
        ∙ replace_from-found d old "")
    ∙ onto_nil s

-- A text that does not start with `t` behind its first character does not start with `d` and `t`.
pub starts-next :
    (c d : Char) (s t : String)
    → starts_with s t ≡ false
    → starts_with (String.◌∷◌ c s) (String.◌∷◌ d t) ≡ false
starts-next c d s t h = elim (Bool-cases (starts_with (String.◌∷◌ c s) (String.◌∷◌ d t))) [
  | inr no_prefix ↦ no_prefix
  | inl found ↦
      let p = starts-inverse (String.◌∷◌ c s) (String.◌∷◌ d t) found in
      absurd (cc (h, ap (λ v. starts_with v t) (tail-eq_of_cons-eq p.1), starts-onto t p.0))
]
