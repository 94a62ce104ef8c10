-- ===== src/Scenario/Profiles/Laws.antt =====
-- Which services a valid scenario starts.
use autonat_project.Base.{
  ℕ, String, ◌≡◌, ◌∙◌, refl, ap, inl, inr, Bool, false, not, ◌&&◌, ◌||◌, Option, none, some, List,
  [], ◌∷◌, ◌++◌, ◌==◌, ◌+◌, any, length, OneOf, arith, if◌then◌else◌,
}
use autonat_project.Base.Int.{ℤ, pos, ltb_ℤ}
use autonat_project.Base.Text.{isdigit, int_of_text}
use autonat_project.Scenario.Defs.{Scenario, Probability, valid_client_impls, valid_server_counts}
use autonat_project.Scenario.Validate.{validate_one}
use autonat_project.Scenario.Validate.Accepts.{ServersOk, validate_one_iff}
use autonat_project.Scenario.Profiles.{
  is_some, server_number, client_profiles, server_profiles, unreliable_profiles, get_profiles,
  client_container, get_client_container, get_obs_thresh, started, clients, servers,
}

-- The profiles behind the client's, by the tests that add them.
abbrev further : Bool → Bool → Bool → Bool → List String
further has_mock five seven unreliable =
    (if has_mock
      then []
      else (if five then "5servers" ∷ [] else []) ++ (if seven then "7servers" ∷ [] else []))
    ++ (if unreliable then "unreliable" ∷ [] else [])

abbrev pub unreliable_on : Option ℤ → Bool
unreliable_on none = false
unreliable_on (some n) = ltb_ℤ (pos 0) n

unreliable_lem :
    (o : Option ℤ) → unreliable_profiles o ≡ (if unreliable_on o then "unreliable" ∷ [] else [])
unfolding unreliable_profiles
unreliable_lem none = refl
unreliable_lem (some n) = refl

-- The clients that run: the scenario's, and with mock servers the Go client too.
abbrev pub expected_clients : Bool → String → String → List String
expected_clients has_mock impl nat_type =
    if has_mock && not (impl == "go")
    then "client-mock" ∷ client_container has_mock impl nat_type ∷ []
    else client_container has_mock impl nat_type ∷ []

clients-started :
    (has_mock five seven unreliable : Bool) (impl nat_type : String)
    → OneOf impl valid_client_impls
    → started
        (client_profiles has_mock impl nat_type ++ further has_mock five seven unreliable)
        clients
      ≡ expected_clients has_mock impl nat_type
unfolding started client_profiles client_container any
clients-started m f v u impl nat_type (inl e) = rw e (ground arith)
clients-started m f v u impl nat_type (inr (inl e)) = rw e (ground arith)
clients-started m f v u impl nat_type (inr (inr (inl e))) = rw e (ground arith)
clients-started m f v u impl nat_type (inr (inr (inr m'))) = elim m' [ ]

-- The number of AutoNAT servers that a count starts.
abbrev pub servers_for : String → ℕ
servers_for count =
    if count == "3" || count == "4" then 3 else if count == "5" || count == "6" then 5 else 7

servers-started :
    (five seven unreliable : Bool) (impl nat_type : String)
    → OneOf impl valid_client_impls
    → length (
        started
          (client_profiles false impl nat_type ++ further false five seven unreliable)
          servers)
      ≡ (if seven then 7 else if five then 5 else 3) + (if unreliable then 5 else 0)
unfolding started client_profiles any
servers-started f v u impl nat_type (inl e) = rw e (ground arith)
servers-started f v u impl nat_type (inr (inl e)) = rw e (ground arith)
servers-started f v u impl nat_type (inr (inr (inl e))) = rw e (ground arith)
servers-started f v u impl nat_type (inr (inr (inr m'))) = elim m' [ ]

abbrev from_five : String → Bool
from_five count = not (count == "3" || count == "4")

server_profiles_lem :
    (count : String)
    → OneOf count valid_server_counts
    → server_profiles false count
      ≡ (if from_five count then "5servers" ∷ [] else [])
        ++ (if count == "7" then "7servers" ∷ [] else [])
unfolding server_profiles isdigit int_of_text
server_profiles_lem count (inl e) = rw e
server_profiles_lem count (inr (inl e)) = rw e
server_profiles_lem count (inr (inr (inl e))) = rw e
server_profiles_lem count (inr (inr (inr (inl e)))) = rw e
server_profiles_lem count (inr (inr (inr (inr (inl e))))) = rw e
server_profiles_lem count (inr (inr (inr (inr (inr m))))) = elim m [ ]

servers_for_lem :
    (count : String)
    → OneOf count valid_server_counts
    → (if count == "7" then 7 else if from_five count then 5 else 3) ≡ servers_for count
servers_for_lem count (inl e) = rw e
servers_for_lem count (inr (inl e)) = rw e
servers_for_lem count (inr (inr (inl e))) = rw e
servers_for_lem count (inr (inr (inr (inl e)))) = rw e
servers_for_lem count (inr (inr (inr (inr (inl e))))) = rw e
servers_for_lem count (inr (inr (inr (inr (inr m))))) = elim m [ ]

thresh_of :
    (count : String)
    → OneOf count valid_server_counts
    → (if ltb_ℤ (server_number (pos 99) count) (pos 4) then pos 2 else pos 4)
      ≡ (if count == "3" then pos 2 else pos 4)
unfolding server_number isdigit int_of_text
thresh_of count (inl e) = rw e
thresh_of count (inr (inl e)) = rw e
thresh_of count (inr (inr (inl e))) = rw e
thresh_of count (inr (inr (inr (inl e)))) = rw e
thresh_of count (inr (inr (inr (inr (inl e))))) = rw e
thresh_of count (inr (inr (inr (inr (inr m))))) = elim m [ ]

count_of :
    (o : Option (List String)) {n : String} → o ≡ none → ServersOk o n → OneOf n valid_server_counts
count_of none e h = h
count_of (some b) e h = cc

module _ (in_unit : Probability → Bool) (s : Scenario) (valid : validate_one in_unit s ≡ none) where
  -- For a valid scenario the chosen profiles start exactly one client, the one whose logs are
  -- read; but with mock servers and a client that is not the Go one, they start the Go client
  -- "client-mock" beside it.
  pub clients-get_profiles : started (get_profiles s) clients ≡ (
      if is_some s.mock_behaviors && not (s.client_impl == "go")
      then "client-mock" ∷ get_client_container s ∷ []
      else get_client_container s ∷ [])
  unfolding get_profiles get_client_container server_profiles
  clients-get_profiles = rw unreliable_lem (
      clients-started (is_some s.mock_behaviors) _ _ (unreliable_on s.unreliable_servers)
        s.client_impl s.nat_type ((validate_one_iff in_unit s).0 valid).0.0)

  -- For a valid scenario without mock servers, the profiles start 3 servers for the counts "3" and
  -- "4", 5 for "5" and "6", and 7 for "7"; and five unreliable servers more when the scenario has a
  -- positive number of these, whatever that number is.
  pub servers-get_profiles :
      s.mock_behaviors ≡ none
      → length (started (get_profiles s) servers)
        ≡ servers_for s.server_count + (if unreliable_on s.unreliable_servers then 5 else 0)
  unfolding get_profiles
  servers-get_profiles no_mock =
      let fields = ((validate_one_iff in_unit s).0 valid).0 in
      let count : OneOf s.server_count valid_server_counts =
        count_of s.mock_behaviors no_mock fields.1.1.1.0 in
      rw (no_mock, unreliable_lem, server_profiles_lem s.server_count count)
        (servers-started _ _ (unreliable_on s.unreliable_servers) s.client_impl s.nat_type fields.0
          ∙ ap (λ n. n + (if unreliable_on s.unreliable_servers then 5 else 0))
              (servers_for_lem s.server_count count))

  -- The threshold of observers that the client gets by default: 2 for three servers, else 4.
  get_obs_thresh_lem :
      s.mock_behaviors ≡ none
      → s.obs_addr_thresh ≡ none
      → get_obs_thresh s ≡ (if s.server_count == "3" then pos 2 else pos 4)
  unfolding get_obs_thresh isdigit int_of_text
  get_obs_thresh_lem no_mock no_thresh =
      rw (no_thresh, no_mock)
        (thresh_of s.server_count
          (count_of s.mock_behaviors no_mock ((validate_one_iff in_unit s).0 valid).0.1.1.1.0))

  -- A valid scenario with the server count "4", no mock servers, no unreliable servers and no
  -- threshold of its own starts three servers, and requires its client's address to be observed by
  -- four.
  pub threshold-exceeds-servers :
      s.mock_behaviors ≡ none
      → unreliable_on s.unreliable_servers ≡ false
      → s.obs_addr_thresh ≡ none
      → s.server_count ≡ "4"
      → (length (started (get_profiles s) servers) ≡ 3) × (get_obs_thresh s ≡ pos 4)
  threshold-exceeds-servers no_mock reliable no_thresh four = (
    servers-get_profiles no_mock ∙ rw (four, reliable) refl,
    get_obs_thresh_lem no_mock no_thresh ∙ rw four,
  )
