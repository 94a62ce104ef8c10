-- ===== src/Figures/Names/Plain.antt =====
-- What holds of the parts that a label of a run can have behind the transport.
use autonat_project.Base.{
  ℕ, zero, suc, String, ◌≡◌, refl, ◌∙◌, Bool, true, false, none, some, List, [], ◌∷◌, ◌++◌, inl,
  inr, starts_with, if◌then◌else◌, Bool-cases, All, eqb, OneOf, OneOf-All,
}
use Prim.Native.Char.{Char, code}
use autonat_project.Base.Int.{ℤ, pos, ltb_ℤ}
use autonat_project.Base.Show.{show_ℕ}
use autonat_project.Base.Text.{is_digit}
use autonat_project.Base.Text.Laws.{
  Avoids, IsNumber-AllDigits, AllDigits-Avoids, onto, Avoids-onto, starts-first, starts-next,
}
use autonat_project.Base.Text.Numbers.{show_ℕ-IsNumber}
use autonat_project.Figures.Names.{numbered, extra_of}
use autonat_project.Figures.Names.Laws.{
  numbered_unless, extra_of-numbered, numbered-append, nonzero, flag, numbered-flag,
}
use autonat_project.Scenario.Defs.{Scenario, valid_server_counts, valid_client_impls}
use autonat_project.Scenario.Label.{any_mock}
use autonat_project.Figures.Names.Parts.{client_part, run_part, servers_part, tail_parts}

All-append : (P : String → Type 0) (xs ys : List String) → All P xs → All P ys → All P (xs ++ ys)
All-append P [] ys h g = g
All-append P (x ∷ xs) ys h g = (h.0, All-append P xs ys h.1 g)

-- A part without dashes and dots.
unfoldable pub Plain : String → Type 0
Plain p = Avoids b'-' p × Avoids b'.' p

number-Plain : (prefix : String) (n : ℕ) → Plain prefix → Plain (onto prefix (show_ℕ n))
unfolding Plain is_digit
number-Plain prefix n h =
    let all = IsNumber-AllDigits (show_ℕ n) (show_ℕ-IsNumber n) in
    (
      Avoids-onto b'-' prefix (show_ℕ n) h.0 (AllDigits-Avoids b'-' (show_ℕ n) refl all),
      Avoids-onto b'.' prefix (show_ℕ n) h.1 (AllDigits-Avoids b'.' (show_ℕ n) refl all),
    )

-- What holds of the parts that a label can have behind the transport.
pub AtParts : (String → Type 0) → Type 0
AtParts P =
    All P valid_server_counts × P "mock" × P "rust" × P "js" × ((k : ℕ) → P (onto "run" (show_ℕ k)))

pub servers_part-All :
    (P : String → Type 0) (s : Scenario)
    → OneOf s.server_count valid_server_counts
    → AtParts P
    → P (servers_part s)
unfolding AtParts
servers_part-All P s h all = elim (Bool-cases (any_mock s.mock_behaviors)) [
  | inl e ↦ rw (e) (all.1)
  | inr e ↦ rw (e) (OneOf-All P s.server_count valid_server_counts h all.0)
]

client_part-All :
    (P : String → Type 0) (client : String)
    → OneOf client valid_client_impls
    → AtParts P
    → All P (client_part client)
unfolding AtParts
client_part-All P client h all =
    OneOf-All (λ c. All P (client_part c)) client valid_client_impls h
      (tt, ((all.2, tt), ((all.3, tt), tt)))

run_part-All : (P : String → Type 0) (runs : ℤ) (k : ℕ) → AtParts P → All P (run_part runs k)
unfolding AtParts
run_part-All P runs k all = elim (Bool-cases (ltb_ℤ (pos 1) runs)) [
  | inl e ↦ rw (e) (all.4 k, tt)
  | inr e ↦ rw (e) tt
]

flag-All :
    (P : String → Type 0) (prefix : String) (n : ℕ)
    → ((m : ℕ) → P (onto prefix (show_ℕ m)))
    → All P (flag prefix n)
flag-All P prefix zero h = tt
flag-All P prefix (suc n) h = (h (suc n), tt)

-- A closed text is tested.
unfoldable pub avoids : ℕ → String → Bool
avoids k String.[] = true
avoids k (String.◌∷◌ c t) = let rest = avoids k t in if eqb (code c) k then false else rest

avoids_at :
    (k : ℕ) (c : Char) (t : String) → eqb (code c) k ≡ true → avoids k (String.◌∷◌ c t) ≡ false
unfolding avoids
avoids_at k c t e = rw (avoids, e) refl

pub avoids-Avoids : (k : ℕ) (t : String) → avoids k t ≡ true → Avoids k t
unfolding avoids
avoids-Avoids k String.[] h = tt
avoids-Avoids k (String.◌∷◌ c t) h = elim (Bool-cases (eqb (code c) k)) [
  | inl e ↦ absurd (cc (h, avoids_at k c t e))
  | inr e ↦ (e, avoids-Avoids k t (rw (avoids, e) at h))
]

pub tested : (p : String) → avoids b'-' p ≡ true → avoids b'.' p ≡ true → Plain p
unfolding Plain
tested p h g = (avoids-Avoids b'-' p h, avoids-Avoids b'.' p g)

pub Plain-AtParts : AtParts Plain
unfolding AtParts avoids
Plain-AtParts = (
  (
    tested "3" refl refl,
    (
      tested "4" refl refl,
      (tested "5" refl refl, (tested "6" refl refl, (tested "7" refl refl, tt))),
    ),
  ),
  tested "mock" refl refl,
  tested "rust" refl refl,
  tested "js" refl refl,
  λ k. number-Plain "run" k (tested "run" refl refl),
)

FreeOf : String → String → Type 0
FreeOf prefix p = starts_with p prefix ≡ false

FreeOf-AtParts-lat : AtParts (FreeOf "lat")
unfolding AtParts FreeOf
FreeOf-AtParts-lat = (
  (refl, (refl, (refl, (refl, (refl, tt))))),
  refl,
  refl,
  refl,
  λ k. starts-first "r" "l" (onto "un" (show_ℕ k)) "at" refl,
)

FreeOf-AtParts-loss : AtParts (FreeOf "loss")
unfolding AtParts FreeOf
FreeOf-AtParts-loss = (
  (refl, (refl, (refl, (refl, (refl, tt))))),
  refl,
  refl,
  refl,
  λ k. starts-first "r" "l" (onto "un" (show_ℕ k)) "oss" refl,
)

loss-FreeOf-lat : (n : ℕ) → All (FreeOf "lat") (flag "loss" n)
unfolding FreeOf
loss-FreeOf-lat n = flag-All (FreeOf "lat") "loss" n (λ m.
    starts-next "l" "l" (onto "oss" (show_ℕ m)) "at"
      (starts-first "o" "a" (onto "ss" (show_ℕ m)) "t" refl))

lat-FreeOf-loss : (n : ℕ) → All (FreeOf "loss") (flag "lat" n)
unfolding FreeOf
lat-FreeOf-loss n = flag-All (FreeOf "loss") "lat" n (λ m.
    starts-next "l" "l" (onto "at" (show_ℕ m)) "oss"
      (starts-first "a" "o" (onto "t" (show_ℕ m)) "ss" refl))

pub tail-Plain :
    (s : Scenario) (loss lat k : ℕ)
    → OneOf s.client_impl valid_client_impls
    → All Plain (tail_parts s loss lat k)
unfolding avoids
tail-Plain s loss lat k h =
    All-append Plain (client_part s.client_impl) _
      (client_part-All Plain s.client_impl h Plain-AtParts)
      (All-append Plain (flag "loss" loss) _
        (flag-All Plain "loss" loss (λ m. number-Plain "loss" m (tested "loss" refl refl)))
        (All-append Plain (flag "lat" lat) _
          (flag-All Plain "lat" lat (λ m. number-Plain "lat" m (tested "lat" refl refl)))
          (run_part-All Plain s.runs k Plain-AtParts)))

pub latency-read :
    (s : Scenario) (loss lat k : ℕ)
    → OneOf s.server_count valid_server_counts
    → OneOf s.client_impl valid_client_impls
    → extra_of "lat" (servers_part s ∷ tail_parts s loss lat k) ≡ some (nonzero lat)
unfolding numbered FreeOf is_digit
latency-read s loss lat k hs hc =
    extra_of-numbered "lat" (servers_part s) (tail_parts s loss lat k)
    ∙ numbered-append "lat" (servers_part s ∷ []) (tail_parts s loss lat k) none
        (servers_part-All (FreeOf "lat") s hs FreeOf-AtParts-lat, tt)
    ∙ numbered-append "lat" (client_part s.client_impl) _ none
        (client_part-All (FreeOf "lat") s.client_impl hc FreeOf-AtParts-lat)
    ∙ numbered-append "lat" (flag "loss" loss) _ none (loss-FreeOf-lat loss)
    ∙ numbered-flag "l" "at" refl lat (run_part s.runs k)
    ∙ numbered_unless "lat" (run_part s.runs k) (nonzero lat)
        (run_part-All (FreeOf "lat") s.runs k FreeOf-AtParts-lat)

pub loss-read :
    (s : Scenario) (loss lat k : ℕ)
    → OneOf s.server_count valid_server_counts
    → OneOf s.client_impl valid_client_impls
    → extra_of "loss" (servers_part s ∷ tail_parts s loss lat k) ≡ some (nonzero loss)
unfolding numbered FreeOf is_digit
loss-read s loss lat k hs hc =
    extra_of-numbered "loss" (servers_part s) (tail_parts s loss lat k)
    ∙ numbered-append "loss" (servers_part s ∷ []) (tail_parts s loss lat k) none
        (servers_part-All (FreeOf "loss") s hs FreeOf-AtParts-loss, tt)
    ∙ numbered-append "loss" (client_part s.client_impl) _ none
        (client_part-All (FreeOf "loss") s.client_impl hc FreeOf-AtParts-loss)
    ∙ numbered-flag "l" "oss" refl loss (flag "lat" lat ++ run_part s.runs k)
    ∙ numbered_unless "loss" (flag "lat" lat ++ run_part s.runs k) (nonzero loss) (
        All-append (FreeOf "loss") (flag "lat" lat) _ (lat-FreeOf-loss lat)
          (run_part-All (FreeOf "loss") s.runs k FreeOf-AtParts-loss))
