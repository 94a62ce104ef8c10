-- ===== src/Nebula/Clients/Order.antt =====
-- The order of the bars that `chart_clients` draws, and that of the keys which it sorts by.
use autonat_project.Base.{
  String, ◌≡◌, ◌≢◌, ◌⊎◌, inl, inr, ◌==◌, eq_iff, Bool, true, false, not, arith, Bool-cases,
}
use autonat_project.Base.Int.{ℤ, pos, ◌-ℤ◌, ◌≤ℤ◌, int_laws}
use autonat_project.Nebula.Clients.{less_pair}

-- Kubo before the others, and otherwise the larger total first.
abbrev pub Precedes : String × ℤ → String × ℤ → Type 0
Precedes (c, t) (d, u) =
    ((c ≡ "kubo") × (d ≢ "kubo"))
    ⊎ ((c ≡ "kubo") × (d ≡ "kubo") × (u ≤ℤ t))
    ⊎ ((c ≢ "kubo") × (d ≢ "kubo") × (u ≤ℤ t))

-- The order of the keys.
abbrev pub KeyOrder : Bool × ℤ → Bool × ℤ → Type 0
KeyOrder (false, m) (true, n) = Unit
KeyOrder (true, m) (false, n) = ⊥
KeyOrder (false, m) (false, n) = m ≤ℤ n
KeyOrder (true, m) (true, n) = m ≤ℤ n

pub front : (j k : Bool × ℤ) → less_pair k j ≡ true → KeyOrder k j
front (false, m) (false, n) h = ground arith
front (false, m) (true, n) h = cc
front (true, m) (false, n) h = tt
front (true, m) (true, n) h = ground arith

pub stay : (j k : Bool × ℤ) → less_pair k j ≡ false → KeyOrder j k
stay (false, m) (false, n) h = ground arith
stay (false, m) (true, n) h = tt
stay (true, m) (false, n) h = cc
stay (true, m) (true, n) h = ground arith

pub KeyOrder-trans : (i j k : Bool × ℤ) → KeyOrder i j → KeyOrder j k → KeyOrder i k
KeyOrder-trans (false, l) (false, m) (false, n) g h = omega arith
KeyOrder-trans (false, l) (false, m) (true, n) g h = tt
KeyOrder-trans (false, l) (true, m) (false, n) g h = elim h [ ]
KeyOrder-trans (false, l) (true, m) (true, n) g h = tt
KeyOrder-trans (true, l) (false, m) (false, n) g h = elim g [ ]
KeyOrder-trans (true, l) (false, m) (true, n) g h = elim g [ ]
KeyOrder-trans (true, l) (true, m) (false, n) g h = elim h [ ]
KeyOrder-trans (true, l) (true, m) (true, n) g h = omega arith

-- The key of a row with this client and this total.
abbrev pub key_of : String → ℤ → Bool × ℤ
key_of c t = (not (c == "kubo"), pos 0 -ℤ t)

neg-le : (t u : ℤ) → pos 0 -ℤ t ≤ℤ pos 0 -ℤ u → u ≤ℤ t
neg-le t u h = omega int_laws

ne_of_test : (c d : String) → c == d ≡ false → c ≢ d
ne_of_test c d e same = cc ((eq_iff c d).1 same)

pub Precedes-KeyOrder :
    (c d : String) (t u : ℤ) → KeyOrder (key_of c t) (key_of d u) → Precedes (c, t) (d, u)
Precedes-KeyOrder c d t u h = elim (Bool-cases (c == "kubo")) [
  | inl e ↦ elim (Bool-cases (d == "kubo")) [
    | inl f ↦ inr (inl ((eq_iff c "kubo").0 e, (eq_iff d "kubo").0 f, neg-le t u (rw (e, f) at h)))
    | inr f ↦ inl ((eq_iff c "kubo").0 e, ne_of_test d "kubo" f)
  ]
  | inr e ↦ elim (Bool-cases (d == "kubo")) [
    | inl f ↦ absurd (rw (e, f) at h)
    | inr f ↦ inr (inr (ne_of_test c "kubo" e, ne_of_test d "kubo" f, neg-le t u (rw (e, f) at h)))
  ]
]
