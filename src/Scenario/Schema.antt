-- ===== src/Scenario/Schema.antt =====
-- `parse_scenario` of testbed/run.py, on the value that the YAML file holds. A value of another kind
-- than its field's counts as an exception, which is `none`.
pub mod Document
pub mod Laws
use autonat_project.Base.{
  ℕ, String, Bool, true, false, not, Option, none, some, List, [], ◌∷◌, map, ◌==◌, if◌then◌else◌,
  ◌>>=◌,
}
use autonat_project.Base.Int.{ℤ, pos}
use autonat_project.Base.Dict.{Dict, lookup, insert_all}
use autonat_project.Json.{
  Json, null, bool, int, float, str, list, dict, Fields, elements, field?, Python, coerce_int,
  default, iterate,
}
use autonat_project.Trace.Attrs.{traverse}
use autonat_project.Assertions.Program.{text_field, filter_field, dict_of}
use autonat_project.Scenario.Defs.{Scenario, Toggle, Assertion, Probability, is_one_of}
use autonat_project.Scenario.Expand.{expand_matrix}

abbrev pub is_null : Json → Bool
is_null null = true
is_null _ = false

-- `{k: v for k, v in raw.items() if v is not None}`
unfoldable pub given_values : Dict Json → Dict Json
given_values [] = []
given_values ((k, v) ∷ raw) =
    let rest = given_values raw in if is_null v then rest else (k, v) ∷ rest

-- `{**defaults, **given}`
unfoldable pub merged : Dict Json → Dict Json → Dict Json
unfolding given_values
merged raw defaults = insert_all (given_values raw) defaults

-- A value that is None, or of its kind.
abbrev optional {ℓ} : {A : Type ℓ} → (Json → Option A) → Option Json → Option (Option A)
optional of none = some none
optional of (some null) = some none
optional of (some v) = do a ← of v; some (some a)

abbrev pub text_of : Json → Option String
text_of (str s) = some s
text_of _ = none

int_of : Json → Option ℤ
int_of (int n) = some n
int_of _ = none

bool_of : Json → Option Bool
bool_of (bool b) = some b
bool_of _ = none

list_of {ℓ} : {A : Type ℓ} → (Json → Option A) → Json → Option (List A)
list_of of (list vs) = traverse of (elements vs)
list_of of _ = none

override_of : Json → Option (Option String)
override_of null = some none
override_of (str s) = some (some s)
override_of _ = none

dict_fields : Json → Option Fields
dict_fields (dict fs) = some fs
dict_fields _ = none

abbrev pub or_value {ℓ} : {A : Type ℓ} → A → (Json → Option A) → Option Json → Option A
or_value otherwise of none = some otherwise
or_value otherwise of (some v) = of v

unfoldable pub toggle_of : Json → Option Toggle
unfolding int_of dict_fields
toggle_of v = do
  fs ← dict_fields v
  given ← field? "action" fs
  action ← text_of given
  wait_for ← text_field "wait_for" "converged" fs
  sleep_s ← or_value (pos 30) int_of (field? "sleep_s" fs)
  timeout_s ← or_value (pos 180) int_of (field? "timeout_s" fs)
  some (record { action = action; wait_for = wait_for; sleep_s = sleep_s; timeout_s = timeout_s })

abbrev assertion_fields : List String
assertion_fields = "type" ∷ "event" ∷ "filter" ∷ "message" ∷ "extract" ∷ "select" ∷ "label" ∷ []

all_known : Fields → Bool
all_known Fields.end = true
all_known (Fields.field k v fs) = if is_one_of k assertion_fields then all_known fs else false

known_fields : Json → Option Fields
known_fields (dict fs) = if all_known fs then some fs else none
known_fields _ = none

-- `Assertion(**a)`, which refuses an unknown key.
unfoldable pub assertion_of : Json → Option Assertion
unfolding known_fields all_known
assertion_of v = do
  fs ← known_fields v
  given ← field? "type" fs
  type ← text_of given
  event ← text_field "event" "" fs
  filter ← filter_field fs
  message ← text_field "message" "" fs
  extract ← text_field "extract" "" fs
  select ← text_field "select" "first" fs
  label ← text_field "label" "" fs
  some (record {
    type = type;
    event = event;
    filter = filter;
    message = message;
    extract = extract;
    select = select;
    label = label;
  })

module _ (py : Python) where
  -- `str(v)`
  str_of : Json → Option String
  str_of (str s) = some s
  str_of v = some (py.to_str v)

  probability_of : Json → Option Probability
  probability_of (float r) = some r
  probability_of (int n) = some (py.to_str (int n))
  probability_of _ = none

  -- The constructor's arguments, from the merged dict. `coerce_int` gives `int(v)`, and none where
  -- that raises.
  unfoldable pub scenario_of : Dict Json → Option Scenario
  unfolding str_of toggle_of assertion_of list_of int_of bool_of probability_of override_of
  scenario_of d = do
    nat_type ← or_value "none" text_of (lookup "nat_type" d)
    transport ← or_value "both" text_of (lookup "transport" d)
    server_count ← or_value "7" str_of (lookup "server_count" d)
    packet_loss ← or_value (pos 0) (coerce_int py) (lookup "packet_loss" d)
    latency_ms ← or_value (pos 10) (coerce_int py) (lookup "latency_ms" d)
    timeout_s ← or_value (pos 120) (coerce_int py) (lookup "timeout_s" d)
    runs ← or_value (pos 1) (coerce_int py) (lookup "runs" d)
    name ← or_value "" text_of (lookup "name" d)
    tcp_block_port ← optional int_of (lookup "tcp_block_port" d)
    port_remap ← optional text_of (lookup "port_remap" d)
    port_forward ← optional bool_of (lookup "port_forward" d)
    upnp ← optional bool_of (lookup "upnp" d)
    obs_addr_thresh ← optional int_of (lookup "obs_addr_thresh" d)
    unreliable_servers ← optional int_of (lookup "unreliable_servers" d)
    observe ← optional int_of (lookup "observe_after_convergence_s" d)
    autonat_refresh ← optional int_of (lookup "autonat_refresh" d)
    mock_behaviors ← optional (list_of text_of) (lookup "mock_behaviors" d)
    mock_delays ← optional (list_of int_of) (lookup "mock_delays" d)
    mock_jitters ← optional (list_of int_of) (lookup "mock_jitters" d)
    mock_probabilities ← optional (list_of probability_of) (lookup "mock_probabilities" d)
    mock_tcp_behaviors ← optional (list_of override_of) (lookup "mock_tcp_behaviors" d)
    mock_quic_behaviors ← optional (list_of override_of) (lookup "mock_quic_behaviors" d)
    dynamic_toggles ← optional (list_of toggle_of) (lookup "dynamic_toggles" d)
    assertions ← optional (list_of assertion_of) (lookup "assertions" d)
    client_impl ← or_value "go" text_of (lookup "client_impl" d)
    some (record {
      nat_type = nat_type;
      transport = transport;
      server_count = server_count;
      packet_loss = packet_loss;
      latency_ms = latency_ms;
      timeout_s = timeout_s;
      runs = runs;
      name = name;
      tcp_block_port = tcp_block_port;
      port_remap = port_remap;
      port_forward = port_forward;
      upnp = upnp;
      obs_addr_thresh = obs_addr_thresh;
      unreliable_servers = unreliable_servers;
      observe_after_convergence_s = observe;
      autonat_refresh = autonat_refresh;
      mock_behaviors = mock_behaviors;
      mock_delays = mock_delays;
      mock_jitters = mock_jitters;
      mock_probabilities = mock_probabilities;
      mock_tcp_behaviors = mock_tcp_behaviors;
      mock_quic_behaviors = mock_quic_behaviors;
      dynamic_toggles = dynamic_toggles;
      assertions = assertions;
      client_impl = client_impl;
    })

  -- `defaults` may be any value, and is an error if it is no dict.
  unfoldable pub parse_scenario : Json → Dict Json → Option Scenario
  unfolding scenario_of merged
  parse_scenario (dict defaults) raw = scenario_of (merged raw (dict_of defaults))
  parse_scenario _ raw = none
