-- ===== src/Scenario/Expand/Laws.antt =====
-- The scenarios that a matrix stands for.
use mathlib.Core.List.{zip}
use autonat_project.Base.{
  ℕ, ◌*◌, ◌≡◌, refl, ap, ◌∙◌, inl, inr, ◌↔◌, List, [], ◌∷◌, map, length, OneOf, OneOf-append,
  OneOf-append_left, OneOf-append_right, length-append, length-map, arith,
}
use autonat_project.Base.Dict.{Dict}
use autonat_project.Json.{Json}
use autonat_project.Scenario.Expand.{with_each, product, keys_of, values_of, expand_matrix}

-- One value of each list.
abbrev Combo : List (List Json) → List Json → Type 0
Combo [] [] = Unit
Combo [] (v ∷ c) = ⊥
Combo (vs ∷ rest) [] = ⊥
Combo (vs ∷ rest) (v ∷ c) = OneOf v vs × Combo rest c

-- The matrix's keys in order, each with one of its values.
abbrev pub IsChoice : Dict (List Json) → Dict Json → Type 0
IsChoice [] [] = Unit
IsChoice [] (kv ∷ row) = ⊥
IsChoice (kvs ∷ matrix) [] = ⊥
IsChoice ((k, vs) ∷ matrix) ((j, v) ∷ row) = (j ≡ k) × (OneOf v vs × IsChoice matrix row)

OneOf-map :
    {A B : Type 0} (f : A → B) (y : B) (xs : List A)
    → OneOf y (map f xs)
    → (x : A) × (y ≡ f x) × OneOf x xs
OneOf-map f y [] h = elim h [ ]
OneOf-map f y (x ∷ xs) (inl e) = (x, e, inl refl)
OneOf-map f y (x ∷ xs) (inr h) = let (z, e, m) = OneOf-map f y xs h in (z, e, inr m)

map-OneOf : {A B : Type 0} (f : A → B) (x : A) (xs : List A) → OneOf x xs → OneOf (f x) (map f xs)
map-OneOf f x [] h = elim h [ ]
map-OneOf f x (y ∷ xs) (inl e) = inl (ap f e)
map-OneOf f x (y ∷ xs) (inr h) = inr (map-OneOf f x xs h)

-- A combination begins with a value of the list and goes on with one of the others.
with_each→ :
    (vs : List Json) (cs : List (List Json)) (c : List Json)
    → OneOf c (with_each vs cs)
    → (v : Json) × (d : List Json) × (c ≡ v ∷ d) × OneOf v vs × OneOf d cs
unfolding with_each
with_each→ [] cs c h = elim h [ ]
with_each→ (v ∷ vs) cs c h = elim (OneOf-append c (map (λ d. v ∷ d) cs) (with_each vs cs) h) [
  | inl m ↦ let (d, e, n) = OneOf-map (λ d. v ∷ d) c cs m in (v, d, e, inl refl, n)
  | inr m ↦ let (w, d, e, n, o) = with_each→ vs cs c m in (w, d, e, inr n, o)
]

with_each← :
    (vs : List Json) (cs : List (List Json)) (v : Json) (d : List Json)
    → OneOf v vs
    → OneOf d cs
    → OneOf (v ∷ d) (with_each vs cs)
unfolding with_each
with_each← [] cs v d h k = elim h [ ]
with_each← (w ∷ vs) cs v d (inl e) k =
    OneOf-append_left (v ∷ d) (map (λ c. w ∷ c) cs) (with_each vs cs)
      (rw e (map-OneOf (λ c. w ∷ c) d cs k))
with_each← (w ∷ vs) cs v d (inr h) k =
    OneOf-append_right (v ∷ d) (map (λ c. w ∷ c) cs) (with_each vs cs) (with_each← vs cs v d h k)

product→ : (vss : List (List Json)) (c : List Json) → OneOf c (product vss) → Combo vss c
unfolding product
product→ [] c (inl e) = rw e tt
product→ [] c (inr h) = elim h [ ]
product→ (vs ∷ vss) c h =
    let (v, d, e, m, n) = with_each→ vs (product vss) c h in rw e (m, product→ vss d n)

product← : (vss : List (List Json)) (c : List Json) → Combo vss c → OneOf c (product vss)
unfolding product
product← [] [] h = inl refl
product← [] (v ∷ c) h = elim h [ ]
product← (vs ∷ vss) [] h = elim h [ ]
product← (vs ∷ vss) (v ∷ c) (m, h) = with_each← vs (product vss) v c m (product← vss c h)

zip-IsChoice :
    (m : Dict (List Json)) (c : List Json) → Combo (values_of m) c → IsChoice m (zip (keys_of m) c)
unfolding zip
zip-IsChoice [] [] h = tt
zip-IsChoice [] (v ∷ c) h = elim h [ ]
zip-IsChoice (kvs ∷ m) [] h = elim h [ ]
zip-IsChoice ((k, vs) ∷ m) (v ∷ c) (a, h) = (refl, (a, zip-IsChoice m c h))

-- A row of choices is the keys with a combination.
IsChoice-zip :
    (m : Dict (List Json)) (row : Dict Json)
    → IsChoice m row
    → (c : List Json) × (row ≡ zip (keys_of m) c) × Combo (values_of m) c
unfolding zip
IsChoice-zip [] [] h = ([], refl, tt)
IsChoice-zip [] (kv ∷ row) h = elim h [ ]
IsChoice-zip (kvs ∷ m) [] h = elim h [ ]
IsChoice-zip ((k, vs) ∷ m) ((j, v) ∷ row) (e, (a, h)) =
    let (c, f, b) = IsChoice-zip m row h in (v ∷ c, rw (e, f), (a, b))

-- The rows that `expand_matrix` returns are exactly those with the matrix's keys in order and, for
-- each key, one of its values.
pub expand_matrix_iff :
    (m : Dict (List Json)) (row : Dict Json) → OneOf row (expand_matrix m) ↔ IsChoice m row
unfolding expand_matrix
expand_matrix_iff m row = (
  λ h.
      let (c, e, n) = OneOf-map (λ c. zip (keys_of m) c) row (product (values_of m)) h in
      rw e (zip-IsChoice m c (product→ (values_of m) c n)),
  λ h.
      let (c, e, b) = IsChoice-zip m row h in
      rw e
        (map-OneOf (λ c. zip (keys_of m) c) c (product (values_of m)) (product← (values_of m) c b)),
)

-- The product of the numbers of values.
abbrev pub sizes : Dict (List Json) → ℕ
sizes [] = 1
sizes ((k, vs) ∷ m) = length vs * sizes m

length-with_each :
    (vs : List Json) (cs : List (List Json)) → length (with_each vs cs) ≡ length vs * length cs
unfolding with_each
length-with_each [] cs = omega arith
length-with_each (v ∷ vs) cs =
    length-append (map (λ c. v ∷ c) cs) (with_each vs cs)
    ∙ omega (arith, length-map (λ c. v ∷ c) cs, length-with_each vs cs)

length-product : (m : Dict (List Json)) → length (product (values_of m)) ≡ sizes m
unfolding product
length-product [] = refl
length-product ((k, vs) ∷ m) =
    length-with_each vs (product (values_of m)) ∙ ap (λ n. length vs * n) (length-product m)

-- A matrix expands to as many rows as the product of the lengths of its lists.
pub length-expand_matrix : (m : Dict (List Json)) → length (expand_matrix m) ≡ sizes m
unfolding expand_matrix
length-expand_matrix m =
    length-map (λ c. zip (keys_of m) c) (product (values_of m)) ∙ length-product m
