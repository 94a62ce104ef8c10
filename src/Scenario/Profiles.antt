-- ===== src/Scenario/Profiles.antt =====
-- `get_profiles`, `get_client_container` and `get_obs_thresh` of testbed/run.py, and the services
-- of testbed/docker/compose.yml that a choice of profiles starts.
pub mod Laws
use autonat_project.Base.{
  ℕ, zero, suc, ◌<>◌, String, Bool, true, false, not, Option, none, some, List, [], ◌∷◌, ◌++◌, ◌==◌,
  any, keep, count, leb, ltb, if◌then◌else◌,
}
use autonat_project.Base.Int.{ℤ, pos, negsuc, pos_part, neg_part, leb_ℤ, ltb_ℤ}
use autonat_project.Base.Text.{isdigit, int_of_text}
use autonat_project.Scenario.Defs.{Scenario, is_one_of}

abbrev pub is_some {ℓ} : {A : Type ℓ} → Option A → Bool
is_some none = false
is_some (some a) = true

abbrev or_zero : Option ℤ → ℤ
or_zero none = pos 0
or_zero (some n) = n

-- `int(s.server_count) if s.server_count.isdigit() else otherwise`
unfoldable pub server_number : ℤ → String → ℤ
server_number otherwise text = if isdigit text then or_zero (int_of_text text) else otherwise

-- The profiles of the client, by its implementation.
unfoldable pub client_profiles : Bool → String → String → List String
client_profiles has_mock impl nat_type =
    if impl == "go"
    then if has_mock then "mock" ∷ [] else if nat_type == "none" then "nonat" ∷ [] else "local" ∷ []
    else if has_mock
    then "mock" ∷ (impl <> "-mock") ∷ []
    else if nat_type == "none"
    then (impl <> "-nonat") ∷ []
    else impl ∷ []

-- The profiles of the further servers.
unfoldable pub server_profiles : Bool → String → List String
unfolding server_number
server_profiles has_mock server_count =
    if has_mock
    then []
    else let sc = server_number (pos 0) server_count in
      (if leb_ℤ (pos 5) sc then "5servers" ∷ [] else [])
      ++ (if leb_ℤ (pos 7) sc then "7servers" ∷ [] else [])

-- `s.unreliable_servers and s.unreliable_servers > 0`
unfoldable pub unreliable_profiles : Option ℤ → List String
unreliable_profiles none = []
unreliable_profiles (some n) = if ltb_ℤ (pos 0) n then "unreliable" ∷ [] else []

unfoldable pub get_profiles : Scenario → List String
get_profiles s =
    let has_mock = is_some s.mock_behaviors in
    client_profiles has_mock s.client_impl s.nat_type
    ++ (server_profiles has_mock s.server_count ++ unreliable_profiles s.unreliable_servers)

unfoldable pub client_container : Bool → String → String → String
client_container has_mock impl nat_type =
    if has_mock
    then if impl == "go" then "client-mock" else "client-" <> impl <> "-mock"
    else if nat_type == "none"
    then if impl == "go" then "client-nonat" else "client-" <> impl <> "-nonat"
    else if impl == "go"
    then "client"
    else "client-" <> impl

unfoldable pub get_client_container : Scenario → String
unfolding client_container
get_client_container s = client_container (is_some s.mock_behaviors) s.client_impl s.nat_type

unfoldable pub get_obs_thresh : Scenario → ℤ
unfolding server_number
get_obs_thresh s = elim s.obs_addr_thresh [
  | some n ↦ n
  | none ↦ elim s.mock_behaviors [
    | some b ↦ pos 2
    | none ↦ if ltb_ℤ (server_number (pos 99) s.server_count) (pos 4) then pos 2 else pos 4
  ]
]

-- A service of testbed/docker/compose.yml, with its profiles.
pub record Service : Type 0 where
  pub service : String
  pub profiles : List String

abbrev base_server : String → Service
base_server n = record {
  service = n;
  profiles = "local" ∷ "nonat" ∷ "rust" ∷ "rust-nonat" ∷ "js" ∷ "js-nonat" ∷ [];
}

abbrev service_in : String → String → Service
service_in n profile = record { service = n; profiles = profile ∷ [] }

abbrev middle_server : String → Service
middle_server n = record { service = n; profiles = "5servers" ∷ "7servers" ∷ [] }

-- The servers that cannot dial back.
abbrev pub unreliable_server_list : List Service
unreliable_server_list =
    service_in "unreliable-server-1" "unreliable"
    ∷ service_in "unreliable-server-2" "unreliable"
    ∷ service_in "unreliable-server-3" "unreliable"
    ∷ service_in "unreliable-server-4" "unreliable"
    ∷ service_in "unreliable-server-5" "unreliable"
    ∷ []

-- The servers that a node without mock servers can ask.
abbrev pub servers : List Service
servers =
    base_server "server-1"
    ∷ base_server "server-2"
    ∷ base_server "server-3"
    ∷ middle_server "server-4"
    ∷ middle_server "server-5"
    ∷ service_in "server-6" "7servers"
    ∷ service_in "server-7" "7servers"
    ∷ unreliable_server_list

abbrev pub clients : List Service
clients =
    service_in "client" "local"
    ∷ service_in "client-nonat" "nonat"
    ∷ service_in "client-mock" "mock"
    ∷ service_in "client-rust" "rust"
    ∷ service_in "client-rust-nonat" "rust-nonat"
    ∷ service_in "client-rust-mock" "rust-mock"
    ∷ service_in "client-js" "js"
    ∷ service_in "client-js-nonat" "js-nonat"
    ∷ service_in "client-js-mock" "js-mock"
    ∷ []

abbrev pub mock_servers : List Service
mock_servers =
    service_in "mock-server-1" "mock"
    ∷ service_in "mock-server-2" "mock"
    ∷ service_in "mock-server-3" "mock"
    ∷ []

-- What `docker compose --profile … up` starts of a list of services.
unfoldable pub started : List String → List Service → List String
started active [] = []
started active (s ∷ rest) =
    let more = started active rest in
    if any (λ p. is_one_of p active) s.profiles then s.service ∷ more else more
