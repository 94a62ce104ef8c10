-- ===== src/Figures/Conditions.antt =====
-- The data of the figures on convergence of results/generate_figures.py: the files that they look for
-- under a network condition, and the time that each contributes, in milliseconds. `none` is an
-- exception.
use autonat_project.Base.{
  String, ◌<>◌, ◌||◌, Bool, Option, none, some, List, [], ◌∷◌, ltb, if◌then◌else◌, ◌>>=◌,
}
use autonat_project.Base.Dict.{Dict, lookup, insert}
use autonat_project.Base.Split.{ends_with}
use autonat_project.Json.{Json, int, Python, truthy}
use autonat_project.Base.Int.{pos}
use autonat_project.Trace.Attrs.{traverse}
use autonat_project.Figures.{
  Reachability, AddrCounts, parse_spans, get_convergence, first_convergence_ms,
}
use autonat_project.Figures.Names.{Extra, parse_scenario_name}

-- A condition; the number is given by its digits.
pub data Condition : Type 0 where
  baseline : Condition
  loss_pct : String → Condition
  latency_ms : String → Condition

abbrev pub conditions : List Condition
conditions =
    baseline
    ∷ loss_pct "1"
    ∷ loss_pct "5"
    ∷ loss_pct "10"
    ∷ latency_ms "200"
    ∷ latency_ms "500"
    ∷ []

unfoldable pub condition_file : Condition → String → String → String
condition_file baseline nat transport = nat <> "-" <> transport <> "-7-lat10.json"
condition_file (loss_pct n) nat transport =
    nat <> "-" <> transport <> "-7-loss" <> n <> "-lat10.json"
condition_file (latency_ms n) nat transport = nat <> "-" <> transport <> "-7-lat" <> n <> ".json"

-- The directories of the three kinds of runs.
pub record Directories : Type 0 where
  pub baseline_dir : Dict (List String)
  pub loss_dir : Dict (List String)
  pub latency_dir : Dict (List String)

abbrev pub condition_dir : Condition → Directories → Dict (List String)
condition_dir baseline d = d.baseline_dir
condition_dir (loss_pct n) d = d.loss_dir
condition_dir (latency_ms n) d = d.latency_dir

-- The NAT types of these figures.
abbrev pub nat_rows : List String
nat_rows = "full-cone" ∷ "address-restricted" ∷ "port-restricted" ∷ "symmetric" ∷ []

abbrev zero_ms : Option Json → Json
zero_ms none = int (pos 0)
zero_ms (some ms) = if truthy ms then ms else int (pos 0)

module _ (py : Python) (to_float : Json → Option Json) (less : Json → Json → Bool) where
  -- An entry of a row of the heat map.
  unfoldable pub heat_cell : Directories → String → String → Condition → Option Json
  unfolding condition_file
  heat_cell dirs transport nat cond =
      elim (lookup (condition_file cond nat transport) (condition_dir cond dirs)) [
        | none ↦ some (int (pos 0))
        | some lines ↦ (do
          spans ← parse_spans py to_float lines
          some (zero_ms (first_convergence_ms py to_float less spans)))
      ]

  unfoldable pub heat_matrix : Directories → String → Option (List (List Json))
  unfolding heat_cell
  heat_matrix dirs transport =
      traverse (λ nat. traverse (heat_cell dirs transport nat) conditions) nat_rows

-- `v1_data` and `v2_data`, whose keys are the pairs of a NAT type and a transport.
pub record Convergence : Type 0 where
  pub v1_data : Dict Json
  pub v2_data : Dict Json

module _ (py : Python) (to_float : Json → Option Json) where
  unfoldable pub with_v1 : String → List Reachability → Dict Json → Dict Json
  with_v1 key [] d = d
  with_v1 key (e ∷ evts) d = insert key e.elapsed d

  -- The inner loop, which leaves at the first event with an address.
  unfoldable pub with_v2 : String → List AddrCounts → Dict Json → Dict Json
  with_v2 key [] d = d
  with_v2 key (e ∷ evts) d =
      let rest = with_v2 key evts d in
      if ltb 0 e.reachable || ltb 0 e.unreachable then insert key e.elapsed d else rest

  unfoldable pub add_run :
      List String → Convergence → Option (String × String × Extra) → Option Convergence
  unfolding with_v1 with_v2
  add_run lines c none = some c
  add_run lines c (some (nat, transport, extra)) = do
    spans ← parse_spans py to_float lines
    let (v1_evts, v2_evts) = get_convergence py to_float spans
    some (record {
      v1_data = with_v1 (nat <> " " <> transport) v1_evts c.v1_data;
      v2_data = with_v2 (nat <> " " <> transport) v2_evts c.v2_data;
    })

  unfoldable pub collect_convergence :
      List (String × List String) → Convergence → Option Convergence
  unfolding add_run
  collect_convergence [] c = some c
  collect_convergence ((name, lines) ∷ files) c = do
    next ←
        (if ends_with name ".json"
          then (do parsed ← parse_scenario_name name; add_run lines c parsed)
          else some c)
    collect_convergence files next
