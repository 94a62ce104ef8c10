-- ===== src/Scenario/Validate/Checks.antt =====
-- When a list of checks passes, in terms of what it checks.
use autonat_project.Base.{
  String, ◌≡◌, refl, sym, ◌↔◌, inl, inr, Bool, false, not, Option, none, some, List, [], ◌∷◌, ◌++◌,
  ◌==◌, eq_iff, any, All, OneOf, arith, Bool-cases,
}
use autonat_project.Scenario.Defs.{is_one_of}
use autonat_project.Scenario.Validate.{Problem, Check, first_failure, concat, each, when_given}

pub is_one_of→OneOf : (x : String) (ns : List String) → not (is_one_of x ns) ≡ false → OneOf x ns
unfolding any
is_one_of→OneOf x [] h = cc
is_one_of→OneOf x (n ∷ ns) h = elim (Bool-cases (n == x)) [
  | inl e ↦ inl (sym ((eq_iff n x).0 e))
  | inr e ↦ inr (is_one_of→OneOf x ns (ground arith))
]

pub member_passes : (x : String) (ns : List String) → OneOf x ns → not (is_one_of x ns) ≡ false
unfolding any
member_passes x [] m = elim m [ ]
member_passes x (n ∷ ns) (inl e) = ground (arith, eq_iff n x)
member_passes x (n ∷ ns) (inr m) = ground (arith, member_passes x ns m)

-- A list of checks passes when each of its conditions is false.
abbrev pub Passes : List Check → Type 0
Passes cs = All (λ c. c.0 ≡ false) cs

pub first_failure→Passes : (cs : List Check) → first_failure cs ≡ none → Passes cs
unfolding first_failure
first_failure→Passes [] h = tt
first_failure→Passes ((b, p) ∷ cs) h = (ground arith, first_failure→Passes cs (ground arith))

pub Passes→first_failure : (cs : List Check) → Passes cs → first_failure cs ≡ none
unfolding first_failure
Passes→first_failure [] h = refl
Passes→first_failure ((b, p) ∷ cs) (h, hs) = ground (arith, Passes→first_failure cs hs)

pub Passes-append : (cs ds : List Check) → Passes (cs ++ ds) ↔ (Passes cs × Passes ds)
Passes-append [] ds = (λ h. (tt, h), λ h. h.1)
Passes-append (c ∷ cs) ds = (
  λ (h, hs). let (a, b) = (Passes-append cs ds).0 hs in ((h, a), b),
  λ ((h, a), b). (h, (Passes-append cs ds).1 (a, b)),
)

pub is_one_of_iff : (x : String) (ns : List String) → (not (is_one_of x ns) ≡ false) ↔ OneOf x ns
is_one_of_iff x ns = (is_one_of→OneOf x ns, member_passes x ns)

-- What holds of a value that is given.
abbrev pub Given {ℓ} : {A : Type ℓ} → Option A → (A → Type 0) → Type 0
Given none P = Unit
Given (some a) P = P a

pub when_given_iff {ℓ} :
    {A : Type ℓ} (o : Option A) (f : A → List Check) (P : A → Type 0)
    → ((a : A) → Passes (f a) ↔ P a)
    → Passes (when_given o f) ↔ Given o P
when_given_iff none f P h = (λ u. u, λ u. u)
when_given_iff (some a) f P h = h a

pub each_iff {ℓ} :
    {A : Type ℓ} (f : A → List Check) (P : A → Type 0) (xs : List A)
    → ((x : A) → Passes (f x) ↔ P x)
    → Passes (each f xs) ↔ All P xs
unfolding each
each_iff f P [] h = (λ u. u, λ u. u)
each_iff f P (x ∷ xs) h = (
  λ u. let (a, b) = (Passes-append (f x) (each f xs)).0 u in ((h x).0 a, (each_iff f P xs h).0 b),
  λ (a, b). (Passes-append (f x) (each f xs)).1 ((h x).1 a, (each_iff f P xs h).1 b),
)

pub single_iff : (b : Bool) (p : Problem) {P : Type 0} → (b ≡ false) ↔ P → Passes ((b, p) ∷ []) ↔ P
single_iff b p e = (λ (h, _). e.0 h, λ h. (e.1 h, tt))

-- A loop whose body is one check.
pub each_single_iff {ℓ} :
    {A : Type ℓ} (test : A → Bool) (p : Problem) (P : A → Type 0) (xs : List A)
    → ((x : A) → (test x ≡ false) ↔ P x)
    → Passes (each (λ x. (test x, p) ∷ []) xs) ↔ All P xs
each_single_iff test p P xs h =
    each_iff (λ x. (test x, p) ∷ []) P xs (λ x. single_iff (test x) p (h x))

pub both_iff : {A B P Q : Type 0} → A ↔ P → B ↔ Q → (A × B) ↔ (P × Q)
both_iff e f = (λ (a, b). (e.0 a, f.0 b), λ (p, q). (e.1 p, f.1 q))

pub last_iff : {A P : Type 0} → A ↔ P → (A × Unit {0}) ↔ P
last_iff e = (λ (a, _). e.0 a, λ p. (e.1 p, tt))

-- Every block passes.
abbrev pub AllPass : List (List Check) → Type 0
AllPass [] = Unit
AllPass (cs ∷ rest) = Passes cs × AllPass rest

pub concat_iff : (blocks : List (List Check)) → Passes (concat blocks) ↔ AllPass blocks
unfolding concat
concat_iff [] = (λ u. u, λ u. u)
concat_iff (cs ∷ rest) = (
  λ u. let (a, b) = (Passes-append cs (concat rest)).0 u in (a, (concat_iff rest).0 b),
  λ (a, b). (Passes-append cs (concat rest)).1 (a, (concat_iff rest).1 b),
)

pub trans_iff : {A B C : Type 0} → A ↔ B → B ↔ C → A ↔ C
trans_iff e f = (λ a. f.0 (e.0 a), λ c. e.1 (f.1 c))
