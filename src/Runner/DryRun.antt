-- ===== src/Runner/DryRun.antt =====
-- `dry_run` of testbed/run.py: the table of the scenarios that it prints.
use Prim.Native.String.{count as char_count}
use autonat_project.Base.{
  ℕ, zero, suc, ◌-◌, String, ◌<>◌, Option, some, List, [], ◌∷◌, ◌++◌, length,
}
use autonat_project.Base.Show.{show, show_ℕ}
use autonat_project.Base.Split.{join}
use autonat_project.Scenario.Defs.{Scenario, Toggle}

spaces : ℕ → String
spaces zero = ""
spaces (suc n) = " " <> spaces n

-- `{:<w}`
unfoldable pub pad : ℕ → String → String
unfolding spaces
pad w s = s <> spaces (w - char_count s)

abbrev pub mock_text : Option (List String) → String
mock_text (some (b ∷ behaviors)) = join "," (b ∷ behaviors)
mock_text _ = "-"

abbrev pub servers_text : String → Option (List String) → String
servers_text count (some (b ∷ behaviors)) = "mock(3)"
servers_text count _ = count

abbrev pub toggles_text : Option (List Toggle) → String
toggles_text (some (t ∷ toggles)) = show_ℕ (length (t ∷ toggles))
toggles_text _ = "-"

unfoldable pub row : List ℕ → List String → String
unfolding pad
row (w ∷ widths) (s ∷ texts) = "  " <> tail (pad w s) widths texts
  where
    tail : String → List ℕ → List String → String
    tail done (w' ∷ ws) (t ∷ ts) = tail (done <> " " <> pad w' t) ws ts
    tail done _ _ = done
row _ _ = "  "

abbrev pub widths : List ℕ
widths = 4 ∷ 20 ∷ 10 ∷ 10 ∷ 6 ∷ 30 ∷ 6 ∷ 8 ∷ 6 ∷ 8 ∷ []

unfoldable pub scenario_row : ℕ → Scenario → String
unfolding row show show_ℕ join
scenario_row number s = row widths (
    show_ℕ number
    ∷ s.nat_type
    ∷ s.transport
    ∷ servers_text s.server_count s.mock_behaviors
    ∷ s.client_impl
    ∷ mock_text s.mock_behaviors
    ∷ (show s.packet_loss <> "%")
    ∷ (show s.latency_ms <> "ms")
    ∷ show s.runs
    ∷ toggles_text s.dynamic_toggles
    ∷ [])

unfoldable pub scenario_rows : ℕ → List Scenario → List String
unfolding scenario_row
scenario_rows number [] = []
scenario_rows number (s ∷ scenarios) = scenario_row number s ∷ scenario_rows (suc number) scenarios

-- The printed texts.
unfoldable pub dry_run : String → List Scenario → List String
unfolding scenario_rows row
dry_run scenario_name scenarios =
    ("\nScenario file: " <> scenario_name <> " (" <> show_ℕ (length scenarios) <> " scenarios)\n")
    ∷ row widths (
        "#" ∷ "NAT Type" ∷ "Transport" ∷ "Servers" ∷ "Impl" ∷ "Mock Behaviors" ∷ "Loss" ∷ "Latency"
        ∷ "Runs" ∷ "Toggles" ∷ [])
    ∷ (scenario_rows 1 scenarios ++ "" ∷ [])
