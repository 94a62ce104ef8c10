-- ===== src/Figures/Rates.antt =====
-- `_compute_fnr_fpr` and `_compute_fnr_fpr_gap` of results/generate_figures.py. The files of a
-- directory are given as their names with their lines, in the order of the loop; a rate is given
-- by its fraction. `none` is an exception.
pub mod Laws
use autonat_project.Base.{
  ℕ, ◌+◌, String, ◌==◌, Bool, true, false, not, ◌||◌, ◌&&◌, Option, none, some, List, [], ◌∷◌, ◌++◌,
  ltb, eqb, starts_with, if◌then◌else◌, ◌>>=◌,
}
use autonat_project.Base.Int.{ℤ, pos, negsuc}
use autonat_project.Base.Split.{contains, ends_with}
use autonat_project.Json.{Json, Python, int, is_text, truthy}
use autonat_project.Figures.{Reachability, AddrCounts, parse_spans, get_convergence}
use autonat_project.Scenario.Defs.{is_one_of}
use autonat_project.Figures.Names.{Extra, parse_scenario_name}

-- `n != k` for `n = extra.get(…)`
abbrev differs : Option ℤ → ℕ → Bool
differs none k = true
differs (some n) k = elim n [ pos m ↦ not (eqb m k) | negsuc m ↦ true ]

abbrev given : Option ℤ → Bool
given none = false
given (some n) = truthy (int n)

-- The conditions on the label, in order.
unfoldable pub is_left_out : String → Extra → Bool
is_left_out label extra =
    (contains label "200ms" && differs extra.latency_ms 200)
    || (contains label "500ms" && differs extra.latency_ms 500)
    || (contains label "1%" && differs extra.loss_pct 1)
    || (contains label "5%" && differs extra.loss_pct 5)
    || (contains label "10%" && differs extra.loss_pct 10)
    || (contains label "local" && (given extra.latency_ms || given extra.loss_pct))

-- The four counters of one version.
pub record Counts : Type 0 where
  pub fn : ℕ
  pub fp : ℕ
  pub tp : ℕ
  pub tn : ℕ

abbrev pub no_counts : Counts
no_counts = record { fn = 0; fp = 0; tp = 0; tn = 0 }

-- One file, by whether its node is reachable and was detected as reachable.
abbrev pub count_one : Bool → Bool → Counts → Counts
count_one true false c = record c { fn = c.fn + 1 }
count_one true true c = record c { tp = c.tp + 1 }
count_one false true c = record c { fp = c.fp + 1 }
count_one false false c = record c { tn = c.tn + 1 }

unfoldable pub v1_detected : List Reachability → Bool
v1_detected [] = false
v1_detected (e ∷ evts) = is_text "public" e.reachability

unfoldable pub v2_detected : List AddrCounts → Option Bool
v2_detected [] = none
v2_detected (e ∷ evts) =
    let rest = v2_detected evts in
    if ltb 0 e.reachable then some true else if ltb 0 e.unreachable then some false else rest

abbrev pub count_v2 : Bool → Option Bool → Counts → Counts
count_v2 true none c = record c { fn = c.fn + 1 }
count_v2 false none c = record c { tn = c.tn + 1 }
count_v2 expected (some detected) c = count_one expected detected c

-- `a / (a + b) * 100 if (a + b) > 0 else 0`, as the numerator and the denominator.
abbrev pub Fraction : Type 0
Fraction = Option (ℕ × ℕ)

abbrev pub rate : ℕ → ℕ → Fraction
rate a b = if ltb 0 (a + b) then some (a, a + b) else none

pub record Rates : Type 0 where
  pub v1_fnr : Fraction
  pub v1_fpr : Fraction
  pub v2_fnr : Fraction
  pub v2_fpr : Fraction

abbrev pub rates_of : Counts × Counts → Rates
rates_of (v1, v2) = record {
  v1_fnr = rate v1.fn v1.tp;
  v1_fpr = rate v1.fp v1.tn;
  v2_fnr = rate v2.fn v2.tp;
  v2_fpr = rate v2.fp v2.tn;
}

abbrev pub no_rates : Rates
no_rates = record { v1_fnr = none; v1_fpr = none; v2_fnr = none; v2_fpr = none }

abbrev pub File : Type 0
File = String × List String

module _ (py : Python) (to_float : Json → Option Json) where
  -- What a file's spans say.
  abbrev pub read_file : List String → Option (List Reachability × List AddrCounts)
  read_file lines = do
    spans ← parse_spans py to_float lines
    some (get_convergence py to_float spans)

  unfoldable pub count_file : Bool → List String → Counts × Counts → Option (Counts × Counts)
  unfolding v1_detected v2_detected
  count_file expected lines (v1, v2) = do
    (v1_evts, v2_evts) ← read_file lines
    some (count_one expected (v1_detected v1_evts) v1, count_v2 expected (v2_detected v2_evts) v2)

  -- The loop's body for a parsed name.
  unfoldable pub count_parsed :
      String
      → List String
      → List String
      → Counts × Counts
      → Option (String × String × Extra)
      → Option (Counts × Counts)
  count_parsed label reachable_nats lines counts none = some counts
  count_parsed label reachable_nats lines counts (some (nat, transport, extra)) =
      if is_left_out label extra
      then some counts
      else count_file (is_one_of nat reachable_nats) lines counts

  -- The loop's body.
  unfoldable pub count_named :
      String → List String → File → Counts × Counts → Option (Counts × Counts)
  count_named label reachable_nats (name, lines) counts =
      if ends_with name ".json"
      then (do
        parsed ← parse_scenario_name name
        count_parsed label reachable_nats lines counts parsed)
      else some counts

  unfoldable pub count_files :
      String → List String → List File → Counts × Counts → Option (Counts × Counts)
  unfolding count_named
  count_files label reachable_nats [] counts = some counts
  count_files label reachable_nats (f ∷ files) counts = do
    next ← count_named label reachable_nats f counts
    count_files label reachable_nats files next

  -- `found` is `os.path.exists(result_dir)`.
  unfoldable pub compute_fnr_fpr : Bool → String → List String → List File → Option Rates
  unfolding count_files
  compute_fnr_fpr found label reachable_nats files =
      if found
      then (do
        counts ← count_files label reachable_nats files (no_counts, no_counts)
        some (rates_of counts))
      else some no_rates

  abbrev gap_one : Bool → Bool → Counts → Counts
  gap_one true false c = record c { fn = c.fn + 1 }
  gap_one true true c = record c { tp = c.tp + 1 }
  gap_one false detected c = c

  abbrev gap_v2 : Bool → Option Bool → Counts → Counts
  gap_v2 true none c = record c { fn = c.fn + 1 }
  gap_v2 false none c = c
  gap_v2 expected (some detected) c = gap_one expected detected c

  -- The inner loop's body; each node is taken as reachable.
  unfoldable pub count_gap : File → Counts × Counts → Option (Counts × Counts)
  unfolding v1_detected v2_detected
  count_gap (name, lines) (v1, v2) =
      if not (ends_with name ".json")
        || ends_with name ".assertions.json"
        || ends_with name ".toggles.json"
      then some (v1, v2)
      else (do
        (v1_evts, v2_evts) ← read_file lines
        some (gap_one true (v1_detected v1_evts) v1, gap_v2 true (v2_detected v2_evts) v2))

  unfoldable pub count_gaps : List File → Counts × Counts → Option (Counts × Counts)
  unfolding count_gap
  count_gaps [] counts = some counts
  count_gaps (f ∷ files) counts = do next ← count_gap f counts; count_gaps files next

  -- The files of the directories of a gap scenario.
  unfoldable pub gap_files : List (String × List File) → List File
  gap_files [] = []
  gap_files ((dir, files) ∷ dirs) =
      let rest = gap_files dirs in if starts_with dir "v1-v2-gap-" then files ++ rest else rest

  -- No rate is counted for a node that is not reachable.
  abbrev gap_rates : Counts × Counts → Rates
  gap_rates (v1, v2) = record {
    v1_fnr = rate v1.fn v1.tp;
    v1_fpr = none;
    v2_fnr = rate v2.fn v2.tp;
    v2_fpr = none;
  }

  -- With no directory every rate is 0, as it is with no file.
  unfoldable pub compute_fnr_fpr_gap : List (String × List File) → Option Rates
  unfolding count_gaps gap_files
  compute_fnr_fpr_gap dirs = do
    counts ← count_gaps (gap_files dirs) (no_counts, no_counts)
    some (gap_rates counts)
