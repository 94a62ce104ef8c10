-- ===== src/Scenario/Defs.antt =====
-- The dataclasses of testbed/run.py, and its constants.
use autonat_project.Base.{String, Bool, Option, List, [], ◌∷◌, ◌==◌, any}
use autonat_project.Base.Int.{ℤ}
use autonat_project.Base.Dict.{Dict}
use autonat_project.Json.{Json}

pub record Toggle : Type 0 where
  pub action : String
  pub wait_for : String
  pub sleep_s : ℤ
  pub timeout_s : ℤ

-- A probability of `mock_probabilities`: a float, by its `repr`.
abbrev pub Probability : Type 0
Probability = String

pub record Assertion : Type 0 where
  pub type : String
  pub event : String
  pub filter : Dict Json
  pub message : String
  pub extract : String
  pub select : String
  pub label : String

pub record Scenario : Type 0 where
  pub nat_type : String
  pub transport : String
  pub server_count : String
  pub packet_loss : ℤ
  pub latency_ms : ℤ
  pub timeout_s : ℤ
  pub runs : ℤ
  pub name : String
  pub tcp_block_port : Option ℤ
  pub port_remap : Option String
  pub port_forward : Option Bool
  pub upnp : Option Bool
  pub obs_addr_thresh : Option ℤ
  pub unreliable_servers : Option ℤ
  pub observe_after_convergence_s : Option ℤ
  pub autonat_refresh : Option ℤ
  pub mock_behaviors : Option (List String)
  pub mock_delays : Option (List ℤ)
  pub mock_jitters : Option (List ℤ)
  pub mock_probabilities : Option (List Probability)
  pub mock_tcp_behaviors : Option (List (Option String))
  pub mock_quic_behaviors : Option (List (Option String))
  pub dynamic_toggles : Option (List Toggle)
  pub assertions : Option (List Assertion)
  pub client_impl : String

-- `x in names`
abbrev pub is_one_of : String → List String → Bool
is_one_of x names = any (λ n. n == x) names

abbrev pub valid_nat_types : List String
valid_nat_types = "none" ∷ "full-cone" ∷ "address-restricted" ∷ "port-restricted" ∷ "symmetric" ∷ []

abbrev pub valid_transports : List String
valid_transports = "tcp" ∷ "quic" ∷ "both" ∷ []

abbrev pub valid_server_counts : List String
valid_server_counts = "3" ∷ "4" ∷ "5" ∷ "6" ∷ "7" ∷ []

abbrev pub valid_mock_behaviors : List String
valid_mock_behaviors =
    "reject" ∷ "refuse" ∷ "force-unreachable" ∷ "internal-error" ∷ "timeout" ∷ "force-reachable"
    ∷ "wrong-nonce" ∷ "no-dialback-msg" ∷ "probabilistic" ∷ "actual" ∷ []

abbrev pub valid_assertion_types : List String
valid_assertion_types = "no_event" ∷ "has_event" ∷ "info" ∷ []

abbrev pub valid_toggle_actions : List String
valid_toggle_actions = "add_port_forward" ∷ "remove_port_forward" ∷ []

abbrev pub valid_toggle_waits : List String
valid_toggle_waits = "converged" ∷ "sleep" ∷ []

abbrev pub valid_client_impls : List String
valid_client_impls = "go" ∷ "rust" ∷ "js" ∷ []
