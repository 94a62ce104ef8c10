-- ===== src/Base/Split/Laws.antt =====
-- The parts of a text that was joined from them, and texts that occur in it.
use autonat_project.Base.Tests.{eqb, Bool-cases}
use Prim.Native.Nat.{ℕ}
use Prim.Native.Char.{Char, code}
use Prim.Native.String.{String}
use text.Mathlib.Text.{starts_with}
use mathlib.Core.Path.{◌≡◌, refl, sym, ap, ◌∙◌}
use mathlib.Core.Logic.{inl, inr}
use mathlib.Core.Bool.{Bool, true, false}
use mathlib.Core.List.{List, [], ◌∷◌, ◌++◌}
use native.Mathlib.Omega.{arith}
use autonat_project.Base.Lists.{All}
use autonat_project.Base.Text.Laws.{
  Avoids, onto, append_lem, onto_assoc, onto_nil, starts-onto, starts-inverse,
}
use autonat_project.Base.Split.{split, in_first, join, contains}

-- Each part after a separator.
abbrev pub after : Char → List String → String
after c [] = ""
after c (p ∷ ps) = String.◌∷◌ c (onto p (after c ps))

pub onto_after :
    (c : Char) (ps qs : List String) → onto (after c ps) (after c qs) ≡ after c (ps ++ qs)
onto_after c [] qs = refl
onto_after c (p ∷ ps) qs =
    ap (λ t. String.◌∷◌ c t)
      (onto_assoc p (after c ps) (after c qs) ∙ ap (onto p) (onto_after c ps qs))

eqb_refl : (n : ℕ) → eqb n n ≡ true
eqb_refl n = ground arith

split-part :
    (k : ℕ) (p s : String) (q : String) (qs : List String)
    → Avoids k p
    → split k s ≡ q ∷ qs
    → split k (onto p s) ≡ onto p q ∷ qs
unfolding split in_first
split-part k String.[] s q qs h e = e
split-part k (String.◌∷◌ c p) s q qs h e = rw (split, h.0, split-part k p s q qs h.1 e) refl

pub split-after :
    (c : Char) (p : String) (ps : List String)
    → Avoids (code c) p
    → All (Avoids (code c)) ps
    → split (code c) (onto p (after c ps)) ≡ p ∷ ps
unfolding split in_first
split-after c p [] h hs = split-part (code c) p "" "" [] h refl ∙ ap (λ q. q ∷ []) (onto_nil p)
split-after c p (q ∷ qs) h hs =
    split-part (code c) p (after c (q ∷ qs)) "" (q ∷ qs) h
      (rw (split, eqb_refl (code c)) (ap (λ r. "" ∷ r) (split-after c q qs hs.0 hs.1)))
    ∙ ap (λ r. r ∷ q ∷ qs) (onto_nil p)

-- What a text starts with occurs in it.
contains-start : (s sub : String) → starts_with s sub ≡ true → contains s sub ≡ true
unfolding contains
contains-start String.[] sub h = h
contains-start (String.◌∷◌ c s) sub h = rw (contains, h) refl

contains-later : (s t sub : String) → contains t sub ≡ true → contains (onto s t) sub ≡ true
unfolding contains
contains-later String.[] t sub h = h
contains-later (String.◌∷◌ c s) t sub h =
    elim (Bool-cases (starts_with (String.◌∷◌ c (onto s t)) sub)) [
      | inl e ↦ rw (contains, e) refl
      | inr e ↦ rw (contains, e) (contains-later s t sub h)
    ]

starts-longer : (s t sub : String) → starts_with s sub ≡ true → starts_with (onto s t) sub ≡ true
starts-longer s t sub h =
    let f = starts-inverse s sub h in
    rw⁻¹ (f.1) (rw (onto_assoc sub f.0 t) (starts-onto sub (onto f.0 t)))

unlike : {a b : Bool} → (a ≡ true → b ≡ true) → b ≡ false → a ≡ false
unlike {a} f h = elim (Bool-cases a) [ inl e ↦ absurd (cc (h, f e)) | inr e ↦ e ]

joined :
    (sep p : String) (q : String) (qs : List String)
    → join sep (p ∷ q ∷ qs) ≡ onto p (onto sep (join sep (q ∷ qs)))
unfolding join
joined sep p q qs = append_lem p _ ∙ ap (onto p) (append_lem sep _)

-- A text that does not occur in the joined text is at the start of no part.
pub not_contained :
    (sep sub p : String) (ps : List String)
    → contains (join sep (p ∷ ps)) sub ≡ false
    → (starts_with p sub ≡ false) × All (λ q. starts_with q sub ≡ false) ps
unfolding join
not_contained sep sub p [] h = (unlike (contains-start p sub) h, tt)
not_contained sep sub p (q ∷ qs) h =
    let joins = sym (ap (λ v. contains v sub) (joined sep p q qs)) ∙ h in
    (
      unlike
          (λ e.
            contains-start (onto p (onto sep (join sep (q ∷ qs)))) sub
              (starts-longer p (onto sep (join sep (q ∷ qs))) sub e))
          joins,
      not_contained sep sub q qs (
          unlike
            (λ e.
              contains-later p (onto sep (join sep (q ∷ qs))) sub
                (contains-later sep (join sep (q ∷ qs)) sub e))
            joins),
    )
