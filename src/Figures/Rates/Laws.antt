-- ===== src/Figures/Rates/Laws.antt =====
-- The two versions' rates are over the same files, and the baseline's are over none.
use autonat_project.Base.{
  ℕ, ◌+◌, String, ◌≡◌, refl, sym, ◌∙◌, Bool, true, false, not, Option, none, some, List, [], ◌∷◌,
  All, arith, Bool-cases, Option-cases, inl, inr, ◌>>=◌,
}
use autonat_project.Base.Split.{contains, ends_with}
use autonat_project.Json.{Json, Python}
use autonat_project.Scenario.Defs.{is_one_of}
use autonat_project.Scenario.Validate.Checks.{Given}
use autonat_project.Figures.Names.{Extra, parse_scenario_name}
use autonat_project.Figures.Rates.{
  given, is_left_out, Counts, no_counts, count_one, count_v2, v1_detected, v2_detected, Fraction,
  rate, no_rates, File, read_file, count_file, count_parsed, count_named, count_files,
  compute_fnr_fpr,
}

-- Both versions have counted the same files with a reachable node, and the same with another.
record IsPaired (counts : Counts × Counts) : Type 0 where
  reachable : counts.0.fn + counts.0.tp ≡ counts.1.fn + counts.1.tp
  unreachable : counts.0.fp + counts.0.tn ≡ counts.1.fp + counts.1.tn

abbrev one : Bool → ℕ
one true = 1
one false = 0

-- One more file with a reachable node, or one more with another.
abbrev OneMore : Bool → Counts → Counts → Type 0
OneMore expected c d =
    (d.fn + d.tp ≡ c.fn + c.tp + one expected) × (d.fp + d.tn ≡ c.fp + c.tn + one (not expected))

count_one-OneMore :
    (expected detected : Bool) (c : Counts) → OneMore expected c (count_one expected detected c)
count_one-OneMore true true c = (omega arith, omega arith)
count_one-OneMore true false c = (omega arith, omega arith)
count_one-OneMore false true c = (omega arith, omega arith)
count_one-OneMore false false c = (omega arith, omega arith)

count_v2-OneMore :
    (expected : Bool) (o : Option Bool) (c : Counts) → OneMore expected c (count_v2 expected o c)
count_v2-OneMore true none c = (omega arith, omega arith)
count_v2-OneMore false none c = (omega arith, omega arith)
count_v2-OneMore true (some detected) c = count_one-OneMore true detected c
count_v2-OneMore false (some detected) c = count_one-OneMore false detected c

count-IsPaired :
    (expected detected : Bool) (o : Option Bool) (v1 v2 : Counts)
    → IsPaired (v1, v2)
    → IsPaired (count_one expected detected v1, count_v2 expected o v2)
count-IsPaired expected detected o v1 v2 p =
    let (a, b) = count_one-OneMore expected detected v1 in
    let (c, d) = count_v2-OneMore expected o v2 in
    record {
      reachable = omega (arith, p.reachable, a, c);
      unreachable = omega (arith, p.unreachable, b, d);
    }

Given-bind :
    {A B : Type 0} (o : Option A) (f : A → Option B) (P : A → Type 0) (Q : B → Type 0)
    → Given o P
    → ((a : A) → P a → Given (f a) Q)
    → Given (o >>= f) Q
Given-bind none f P Q h k = tt
Given-bind (some a) f P Q h k = k a h

abbrev pub denominator : Fraction → ℕ
denominator none = 0
denominator (some (a, b)) = b

denominator-rate : (a b : ℕ) → denominator (rate a b) ≡ a + b
denominator-rate a b = ground arith

-- The file's name gives a latency other than 0.
abbrev pub NamesLatency : File → Type 0
NamesLatency (name, lines) =
    (nat : String) × (transport : String) × (extra : Extra) × (parse_scenario_name name
      ≡ some (some (nat, transport, extra)))
    × (given extra.latency_ms ≡ true)

module _ (py : Python) (to_float : Json → Option Json) (label : String)
    (reachable_nats : List String) where
  count_file-IsPaired :
      (expected : Bool) (lines : List String) (counts : Counts × Counts)
      → IsPaired counts
      → Given (count_file py to_float expected lines counts) IsPaired
  unfolding count_file
  count_file-IsPaired expected lines (v1, v2) p =
      elim (Option-cases (read_file py to_float lines)) [
        | inl e ↦ rw (count_file, e) tt
        | inr ((v1_evts, v2_evts), e) ↦
            rw (count_file, e)
              (count-IsPaired expected (v1_detected v1_evts) (v2_detected v2_evts) v1 v2 p)
      ]

  count_named-IsPaired :
      (f : File) (counts : Counts × Counts)
      → IsPaired counts
      → Given (count_named py to_float label reachable_nats f counts) IsPaired
  unfolding count_named count_parsed
  count_named-IsPaired (name, lines) counts p = elim (Bool-cases (ends_with name ".json")) [
    | inr e ↦ rw (count_named, e) p
    | inl e ↦
        rw (count_named, e)
          (Given-bind (parse_scenario_name name) _ (λ parsed. Unit) IsPaired
            (any_given (parse_scenario_name name)) (λ parsed u. of_parsed parsed))
  ]
    where
      any_given : (o : Option (Option (String × String × Extra))) → Given o (λ parsed. Unit)
      any_given none = tt
      any_given (some parsed) = tt

      of_parsed :
          (parsed : Option (String × String × Extra))
          → Given (count_parsed py to_float label reachable_nats lines counts parsed) IsPaired
      of_parsed none = p
      of_parsed (some (nat, transport, extra)) = elim (Bool-cases (is_left_out label extra)) [
        | inl e ↦ rw e p
        | inr e ↦ rw e (count_file-IsPaired (is_one_of nat reachable_nats) lines counts p)
      ]

  count_files-IsPaired :
      (files : List File) (counts : Counts × Counts)
      → IsPaired counts
      → Given (count_files py to_float label reachable_nats files counts) IsPaired
  unfolding count_files
  count_files-IsPaired [] counts p = p
  count_files-IsPaired (f ∷ files) counts p =
      Given-bind (count_named py to_float label reachable_nats f counts) _ IsPaired IsPaired
        (count_named-IsPaired f counts p) (λ next q. count_files-IsPaired files next q)

  -- However the files are named and whatever they hold: when no file raises an exception, the rates
  -- of both versions are over the same numbers of files, with a reachable node for the false
  -- negatives and with another node for the false positives.
  pub compute_fnr_fpr-denominators :
      (found : Bool) (files : List File)
      → Given (compute_fnr_fpr py to_float found label reachable_nats files) (λ r.
        (denominator r.v1_fnr ≡ denominator r.v2_fnr)
        × (denominator r.v1_fpr ≡ denominator r.v2_fpr))
  unfolding compute_fnr_fpr
  compute_fnr_fpr-denominators false files = (refl, refl)
  compute_fnr_fpr-denominators true files =
      Given-bind (count_files py to_float label reachable_nats files (no_counts, no_counts)) _
        IsPaired _
        (count_files-IsPaired files (no_counts, no_counts)
          (record { reachable = refl; unreachable = refl }))
        (λ (v1, v2) p. (
          denominator-rate v1.fn v1.tp ∙ p.reachable ∙ sym (denominator-rate v2.fn v2.tp),
          denominator-rate v1.fp v1.tn ∙ p.unreachable ∙ sym (denominator-rate v2.fp v2.tn),
        ))

  module _ (local : contains label "local" ≡ true) where
    local-left_out :
        (extra : Extra) → given extra.latency_ms ≡ true → is_left_out label extra ≡ true
    unfolding is_left_out
    local-left_out extra g = ground (arith, local, g)

    count_named-local :
        (f : File) (counts : Counts × Counts)
        → NamesLatency f
        → count_named py to_float label reachable_nats f counts ≡ some counts
    unfolding count_named count_parsed
    count_named-local (name, lines) counts (nat, transport, extra, e, g) =
        elim (Bool-cases (ends_with name ".json")) [
          | inr h ↦ rw (count_named, h) refl
          | inl h ↦ rw (count_named, h, e, local-left_out extra g) refl
        ]

    count_files-local :
        (files : List File) (counts : Counts × Counts)
        → All NamesLatency files
        → count_files py to_float label reachable_nats files counts ≡ some counts
    unfolding count_files
    count_files-local [] counts h = refl
    count_files-local (f ∷ files) counts (h, hs) =
        rw (count_named-local f counts h) (count_files-local files counts hs)

  -- For a label with "local", when the name of each file gives a latency other than 0, no file is
  -- counted: every rate is the 0 of an empty denominator, whatever the files hold.
  pub compute_fnr_fpr-local :
      (files : List File)
      → contains label "local" ≡ true
      → All NamesLatency files
      → compute_fnr_fpr py to_float true label reachable_nats files ≡ some no_rates
  unfolding compute_fnr_fpr
  compute_fnr_fpr-local files local h =
      rw (count_files-local local files (no_counts, no_counts) h) refl
