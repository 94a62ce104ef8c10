-- ===== src/Scenario/Label.antt =====
-- `build_run_label` of testbed/run.py, which names a run's result file. `str` of an integer is a
-- parameter.
use autonat_project.Base.{
  String, ◌<>◌, Bool, true, false, Option, some, List, ◌∷◌, ◌==◌, if◌then◌else◌,
}
use autonat_project.Base.Int.{ℤ, pos, ltb_ℤ}
use autonat_project.Json.{int, truthy}
use autonat_project.Scenario.Defs.{Scenario}

-- `if s.mock_behaviors`
abbrev pub any_mock : Option (List String) → Bool
any_mock (some (b ∷ bs)) = true
any_mock _ = false

module _ (str_int : ℤ → String) where
  unfoldable pub suffix : String → ℤ → String
  suffix text n = if truthy (int n) then text <> str_int n else ""

  unfoldable pub build_run_label : Scenario → ℤ → String
  unfolding suffix truthy
  build_run_label s run_num =
      let sc = if any_mock s.mock_behaviors then "mock" else s.server_count in
      let label = if s.name == "" then s.nat_type <> "-" <> s.transport <> "-" <> sc else s.name in
      label
      <> (if s.client_impl == "go" then "" else "-" <> s.client_impl)
      <> suffix "-loss" s.packet_loss
      <> suffix "-lat" s.latency_ms
      <> (if ltb_ℤ (pos 1) s.runs then "-run" <> str_int run_num else "")
