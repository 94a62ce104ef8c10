-- ===== src/Runner/Ready/Laws.antt =====
-- The waits before and after a convergence come to an end.
use autonat_project.Base.{
  String, ℕ, zero, suc, ◌+◌, ◌*◌, ◌≤◌, ◌≡◌, refl, ◌⊎◌, inl, inr, Bool, false, some, List, [], eqb,
  arith, Bool-cases, count, true, ◌<◌, sym, ◌∙◌, ap, ◌∷◌, All, eq_iff, length, leb,
}
use autonat_project.Base.Int.{ℤ, pos, ltb_ℤ, leb_ℤ, ◌≤ℤ◌}
use autonat_project.Json.{
  Json, Fields, null, bool, int, float, str, list, dict, field?, default, truthy, is_text,
}
use autonat_project.Runner.Waits.{Clock}
use autonat_project.Runner.Waits.Laws.{EndsIn, poll-EndsIn}
use autonat_project.Runner.Ready.{wait_ready, is_unhealthy, wait_for_healthy, latest, observe}

-- `time.sleep(n)` sleeps at least `n` seconds.
abbrev pub SleepsFor : ℕ → Clock → Type 0
SleepsFor n elapsed = (k : ℕ) → n * k ≤ elapsed k

-- The wait for Jaeger returns within the timeout's seconds and one more round.
pub wait_ready_lem :
    (fuel : ℕ) (elapsed : Clock) (answers : ℕ → Bool) (timeout : ℤ)
    → SleepsFor 1 elapsed
    → timeout ≤ℤ pos fuel
    → (b : Bool) × (e : ℕ) × (wait_ready (suc fuel) elapsed answers timeout ≡ some (b, e))
      × EndsIn timeout elapsed answers elapsed 0 b e
unfolding wait_ready
wait_ready_lem fuel elapsed answers timeout sleeps h =
    poll-EndsIn timeout elapsed answers elapsed fuel (omega (arith, sleeps fuel, h)) fuel 0
      (omega arith)

-- A container that docker says is healthy, or for which it does not say how it is.
abbrev pub IsWell : Fields → Type 0
IsWell item =
    (truthy (default null (field? "Health" item)) ≡ false)
    ⊎ (default null (field? "Health" item) ≡ str "healthy")

text_of : (n : String) (v : Json) → is_text n v ≡ true → v ≡ str n
unfolding is_text
text_of n (str t) h = ap str ((eq_iff t n).0 h)
text_of n null h = absurd (cc h)
text_of n (bool b) h = absurd (cc h)
text_of n (int i) h = absurd (cc h)
text_of n (float r) h = absurd (cc h)
text_of n (list vs) h = absurd (cc h)
text_of n (dict fs) h = absurd (cc h)

is_unhealthy_lem :
    (item : Fields)
    → ((is_unhealthy item ≡ false) × IsWell item) ⊎ ((is_unhealthy item ≡ true) × (IsWell item → ⊥))
unfolding is_unhealthy is_text
is_unhealthy_lem item =
    let v = default null (field? "Health" item) in
    elim (Bool-cases (truthy v)) [
      | inr e ↦ inl (rw e refl, inl e)
      | inl e ↦ elim (Bool-cases (is_text "healthy" v)) [
        | inl h ↦ inl (rw (e, h) refl, inr (text_of "healthy" v h))
        | inr h ↦ inr (
          rw (e, h) refl,
          λ well. elim well [
            | inl falsy ↦ absurd (cc (e, falsy))
            | inr s ↦ absurd (cc (h, ap (is_text "healthy") s))
          ],
        )
      ]
    ]

-- A round finds no container unhealthy exactly when all are well.
well_lem :
    (items : List Fields)
    → ((eqb (count is_unhealthy items) 0 ≡ true) × All IsWell items)
      ⊎ ((eqb (count is_unhealthy items) 0 ≡ false) × (All IsWell items → ⊥))
unfolding count
well_lem [] = inl (refl, tt)
well_lem (item ∷ items) = elim (is_unhealthy_lem item) [
  | inr (e, sick) ↦ inr (ground (arith, e), λ all. sick all.0)
  | inl (e, well) ↦ elim (well_lem items) [
    | inl (f, wells) ↦ inl (ground (arith, e, f), (well, wells))
    | inr (f, sick) ↦ inr (ground (arith, e, f), λ all. sick all.1)
  ]
]

in_time : (e timeout : ℤ) → leb_ℤ timeout e ≡ false → ltb_ℤ e timeout ≡ true
in_time e timeout h = ground arith

late_at :
    (fuel e : ℕ) (timeout : ℤ)
    → 2 * fuel ≤ e
    → timeout ≤ℤ pos (2 * fuel)
    → leb_ℤ timeout (pos e) ≡ true
late_at fuel e timeout a b = ground arith

-- The round in which the wait for the servers ends. In no round before it all containers were well.
-- In that round they are and it is not too late, or it is too late.
pub record Settles (timeout : ℤ) (elapsed : Clock) (items : ℕ → List Fields) (fuel : ℕ) (b : Bool)
    (e : ℕ) : Type 0 where
  pub round : ℕ
  pub soon : round ≤ fuel
  pub waiting : (j : ℕ) → j < round → All IsWell (items j) → ⊥
  pub time : e ≡ elapsed round
  pub answer :
      ((b ≡ true) × All IsWell (items round) × (ltb_ℤ (pos (elapsed round)) timeout ≡ true))
      ⊎ ((b ≡ false) × (timeout ≤ℤ pos (elapsed round)))

pub wait_for_healthy_lem :
    (fuel : ℕ) (elapsed : Clock) (items : ℕ → List Fields) (timeout : ℤ)
    → SleepsFor 2 elapsed
    → timeout ≤ℤ pos (2 * fuel)
    → (b : Bool) × (e : ℕ) × (wait_for_healthy (suc fuel) elapsed items timeout ≡ some (b, e))
      × Settles timeout elapsed items fuel b e
unfolding wait_for_healthy
wait_for_healthy_lem fuel elapsed items timeout sleeps h =
    let (b, e, eq, is) =
      poll-EndsIn timeout elapsed (λ k. eqb (count is_unhealthy (items k)) 0) elapsed fuel
        (omega (arith, sleeps fuel, h)) fuel 0 (omega arith) in
    (
      b,
      e,
      eq,
      record {
        round = is.round;
        soon = elim (Bool-cases (leb is.round fuel)) [
          | inl le ↦ ground arith
          | inr gt ↦ absurd (
              cc (
                late_at fuel (elapsed fuel) timeout (sleeps fuel) h,
                (is.unfinished fuel (omega arith) (ground arith)).1,
              ))
        ];
        waiting = λ j lt all. elim (well_lem (items j)) [
          | inl (t, _) ↦ absurd (cc (t, (is.unfinished j (omega arith) lt).0))
          | inr (_, sick) ↦ sick all
        ];
        time = elim is.answer [ inl (_, (_, (_, t))) ↦ t | inr (_, (_, t)) ↦ t ];
        answer = elim is.answer [
          | inl (said, (found, (early, _))) ↦ inl (
            said,
            elim (well_lem (items is.round)) [
              | inl (_, all) ↦ all
              | inr (f, _) ↦ absurd (cc (f, found))
            ],
            in_time (pos (elapsed is.round)) timeout early,
          )
          | inr (said, (late, _)) ↦ inr (said, late)
        ];
      },
    )

-- A round sleeps for a minute, or until the observation is over.
abbrev pub Observes : ℤ → Clock → Type 0
Observes obs elapsed = (k : ℕ) → (elapsed k + 60 ≤ elapsed (k + 1)) ⊎ (obs ≤ℤ pos (elapsed (k + 1)))

-- The queries of the rounds from `k` up to `n` found nothing.
abbrev pub Quiet {ℓ} : {A : Type ℓ} → (ℕ → List A) → ℕ → ℕ → Type ℓ
Quiet new_spans k n = (j : ℕ) → k ≤ j → j < n → new_spans j ≡ []

-- What is left after the rounds from `k` up to `n`: what there was before if they found nothing,
-- and else what the last round found that found anything.
abbrev pub IsLast {ℓ} : {A : Type ℓ} → (ℕ → List A) → ℕ → ℕ → List A → List A → Type ℓ
IsLast new_spans k n before result =
    (Quiet new_spans k n × (result ≡ before))
    ⊎ ((j : ℕ) × (k ≤ j)
        × (j < n)
        × (result ≡ new_spans j)
        × (0 < length result)
        × Quiet new_spans (suc j) n)

module _ {ℓ} {A : Type ℓ} (new_spans : ℕ → List A) where
  Quiet-suc : (k n : ℕ) → new_spans k ≡ [] → Quiet new_spans (k + 1) n → Quiet new_spans k n
  Quiet-suc k n e quiet j a b = elim (Bool-cases (eqb j k)) [
    | inl same ↦ let q : j ≡ k = ground arith in rw q e
    | inr other ↦ quiet j (ground arith) b
  ]

  IsLast-step :
      (k n : ℕ) (before result here : List A)
      → k < n
      → new_spans k ≡ here
      → IsLast new_spans (k + 1) n (latest here before) result
      → IsLast new_spans k n before result
  IsLast-step k n before result here lt e (inr (j, a, b, eq, full, quiet)) =
      inr (j, omega arith, b, eq, full, quiet)
  IsLast-step k n before result [] lt e (inl (quiet, eq)) = inl (Quiet-suc k n e quiet, eq)
  IsLast-step k n before result (x ∷ xs) lt e (inl (quiet, eq)) =
      inr (k, omega arith, lt, eq ∙ sym e, rw eq (omega arith), λ j a b. quiet j (omega arith) b)

-- The rounds from `k` up to `n` are in time, and round `n` is not.
abbrev pub LastsTo : ℤ → Clock → ℕ → ℕ → Type 0
LastsTo obs elapsed k n =
    ((j : ℕ) → k ≤ j → j < n → ltb_ℤ (pos (elapsed j)) obs ≡ true) × (obs ≤ℤ pos (elapsed n))

not_before : (e obs : ℤ) → ltb_ℤ e obs ≡ false → obs ≤ℤ e
not_before e obs h = ground arith

module _ {ℓ} {A : Type ℓ} (obs : ℤ) (elapsed : Clock) (new_spans : ℕ → List A)
    (observes : Observes obs elapsed) where
  observe_from :
      (fuel k : ℕ) (spans : List A)
      → obs ≤ℤ pos (elapsed k + 60 * fuel)
      → (n : ℕ) × (result : List A) × (k ≤ n)
        × (n ≤ k + fuel)
        × (observe (suc fuel) obs elapsed new_spans k spans ≡ some result)
        × LastsTo obs elapsed k n
        × IsLast new_spans k n spans result
  unfolding observe
  observe_from zero k spans h = (
    k,
    spans,
    omega arith,
    omega arith,
    rw (over (pos (elapsed k)) (omega arith)) refl,
    (λ j a b. absurd (omega arith), omega arith),
    inl (λ j a b. absurd (omega arith), refl),
  )
    where
      over : (e : ℤ) → obs ≤ℤ e → ltb_ℤ e obs ≡ false
      over e le = ground arith
  observe_from (suc fuel) k spans h = elim (Bool-cases (ltb_ℤ (pos (elapsed k)) obs)) [
    | inr over ↦ (
      k,
      spans,
      omega arith,
      omega arith,
      rw over refl,
      (λ j a b. absurd (omega arith), not_before (pos (elapsed k)) obs over),
      inl (λ j a b. absurd (omega arith), refl),
    )
    | inl more ↦
        let reached : obs ≤ℤ pos (elapsed (k + 1) + 60 * fuel) = omega (arith, observes k, h) in
        let (n, result, a, b, e, (early, late), last) =
          observe_from fuel (k + 1) (latest (new_spans k) spans) reached in
        (
          n,
          result,
          omega arith,
          omega arith,
          rw more e,
          (
            λ j c d. elim (Bool-cases (eqb j k)) [
              | inl same ↦ let q : j ≡ k = ground arith in rw q more
              | inr other ↦ early j (ground arith) d
            ],
            late,
          ),
          IsLast-step new_spans k n spans result (new_spans k) (omega arith) refl last,
        )
  ]

  -- The observation ends within its minutes' rounds, the first late round being its last. It
  -- returns what the last query in time found that found anything, and nothing if none did.
  pub observe_lem :
      (fuel : ℕ)
      → obs ≤ℤ pos (60 * fuel)
      → (n : ℕ) × (result : List A) × (n ≤ fuel)
        × (observe (suc fuel) obs elapsed new_spans 0 [] ≡ some result)
        × LastsTo obs elapsed 0 n
        × IsLast new_spans 0 n [] result
  observe_lem fuel h =
      let (n, result, _, le, e, lasts, last) = observe_from fuel 0 [] (omega arith) in
      (n, result, omega arith, e, lasts, last)
