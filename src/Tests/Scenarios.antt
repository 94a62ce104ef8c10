-- ===== src/Tests/Scenarios.antt =====
-- Scenarios, valid and not.
use autonat_project.Base.{◌+◌, if◌then◌else◌}
use autonat_project.Base.{
  ◌≡◌, refl, ◌↔◌, String, Bool, none, some, List, [], ◌∷◌, ◌==◌, any, All, OneOf, length,
}
use autonat_project.Base.Int.{ℤ, pos, negsuc}
use autonat_project.Base.Dict.{Dict, lookup}
use autonat_project.Json.{Json, str}
use autonat_project.Scenario.Defs.{Scenario, Probability}
use autonat_project.Scenario.Validate.{
  validate, validate_one, server_count_fails, port_remap_fails, block_port_fails, behavior_checks,
}
use autonat_project.Scenario.Validate.Accepts.{IsValid, validate_iff}
use autonat_project.Scenario.Environment.{entry_or, build_env}
use autonat_project.Scenario.Environment.Laws.{build_env_valid}
use autonat_project.Scenario.Profiles.{
  get_profiles, get_client_container, get_obs_thresh, started, clients, servers,
}
use autonat_project.Scenario.Profiles.Laws.{
  servers_for, unreliable_on, clients-get_profiles, servers-get_profiles, threshold-exceeds-servers,
}
use autonat_project.Scenario.Expand.{expand_matrix}
use autonat_project.Scenario.Expand.Laws.{IsChoice, expand_matrix_iff}
use autonat_project.Scenario.Label.{build_run_label}

abbrev pub in_unit : Probability → Bool
in_unit p = p == "0.5"

abbrev pub str_int : ℤ → String
str_int n = elim n [ pos k ↦ "10" | negsuc k ↦ "-1" ]

-- The defaults of the dataclass, with four servers.
abbrev pub four_servers : Scenario
four_servers = record {
  nat_type = "none";
  transport = "both";
  server_count = "4";
  packet_loss = pos 0;
  latency_ms = pos 10;
  timeout_s = pos 120;
  runs = pos 1;
  name = "";
  tcp_block_port = none;
  port_remap = none;
  port_forward = none;
  upnp = none;
  obs_addr_thresh = none;
  unreliable_servers = none;
  observe_after_convergence_s = none;
  autonat_refresh = none;
  mock_behaviors = none;
  mock_delays = none;
  mock_jitters = none;
  mock_probabilities = none;
  mock_tcp_behaviors = none;
  mock_quic_behaviors = none;
  dynamic_toggles = none;
  assertions = none;
  client_impl = "go";
}

-- Mock servers and the Rust client.
abbrev rust_mock : Scenario
rust_mock = record four_servers {
  client_impl = "rust";
  mock_behaviors = some ("reject" ∷ "reject" ∷ "actual" ∷ []);
}

four_valid : validate_one in_unit four_servers ≡ none
unfolding validate any server_count_fails port_remap_fails block_port_fails
four_valid = refl

rust_valid : validate_one in_unit rust_mock ≡ none
unfolding validate any server_count_fails port_remap_fails block_port_fails behavior_checks
rust_valid = refl

validate_iff_example :
    (validate in_unit (four_servers ∷ rust_mock ∷ []) ≡ none)
    ↔ All (IsValid in_unit) (four_servers ∷ rust_mock ∷ [])
validate_iff_example = validate_iff in_unit (four_servers ∷ rust_mock ∷ [])

-- The documented count "ipfs-network" is refused.
ipfs_network_refused :
    validate in_unit (record four_servers { server_count = "ipfs-network" } ∷ [])
    ≡ some (1, autonat_project.Scenario.Validate.server_count)
unfolding validate any server_count_fails
ipfs_network_refused = refl

build_env_valid_example :
    (env : Dict String) × (build_env str_int rust_mock ≡ some env)
    × (lookup "NAT_TYPE" env ≡ some "none")
    × (lookup "TRANSPORT" env ≡ some "both")
    × (lookup "OBS_ADDR_THRESH" env ≡ some (str_int (get_obs_thresh rust_mock)))
    × (lookup "MOCK_BEHAVIOR_1" env ≡ entry_or (λ b. b) "" rust_mock.mock_behaviors 0)
    × (lookup "MOCK_BEHAVIOR_2" env ≡ entry_or (λ b. b) "" rust_mock.mock_behaviors 1)
    × (lookup "MOCK_BEHAVIOR_3" env ≡ entry_or (λ b. b) "" rust_mock.mock_behaviors 2)
build_env_valid_example = build_env_valid in_unit str_int rust_mock rust_valid

clients-get_profiles_example :
    started (get_profiles rust_mock) clients ≡ "client-mock" ∷ get_client_container rust_mock ∷ []
clients-get_profiles_example = clients-get_profiles in_unit rust_mock rust_valid

servers-get_profiles_example :
    length (started (get_profiles four_servers) servers)
    ≡ servers_for four_servers.server_count
      + (if unreliable_on four_servers.unreliable_servers then 5 else 0)
servers-get_profiles_example = servers-get_profiles in_unit four_servers four_valid refl

threshold-exceeds-servers_example :
    (length (started (get_profiles four_servers) servers) ≡ 3)
    × (get_obs_thresh four_servers ≡ pos 4)
threshold-exceeds-servers_example =
    threshold-exceeds-servers in_unit four_servers four_valid refl refl refl refl

abbrev matrix : Dict (List Json)
matrix =
    ("nat_type", str "none" ∷ str "symmetric" ∷ [])
    ∷ ("transport", str "tcp" ∷ str "quic" ∷ str "both" ∷ [])
    ∷ []

abbrev row : Dict Json
row = ("nat_type", str "symmetric") ∷ ("transport", str "tcp") ∷ []

expand_matrix_iff_example : OneOf row (expand_matrix matrix) ↔ IsChoice matrix row
expand_matrix_iff_example = expand_matrix_iff matrix row

-- Two scenarios whose mock servers behave differently have the same label.
abbrev other_mock : Scenario
other_mock = record rust_mock { mock_behaviors = some ("actual" ∷ "actual" ∷ "actual" ∷ []) }

label_of_mocks :
    (build_run_label str_int rust_mock (pos 1) ≡ "none-both-mock-rust-lat10")
    × (build_run_label str_int other_mock (pos 1) ≡ "none-both-mock-rust-lat10")
unfolding build_run_label
label_of_mocks = (refl, refl)
