-- ===== src/Scenario/Environment.antt =====
-- `build_env` of testbed/run.py. `str` of an integer is a parameter.
pub mod Laws
use autonat_project.Base.{
  ℕ, zero, suc, ◌+◌, String, ◌<>◌, Bool, true, false, Option, none, some, List, [], ◌∷◌, ◌++◌, ◌==◌,
  get_elem?, if◌then◌else◌, ◌>>=◌,
}
use autonat_project.Base.Int.{ℤ, pos, negsuc}
use autonat_project.Base.Dict.{Dict, insert_all}
use autonat_project.Scenario.Defs.{Scenario, Probability}
use autonat_project.Scenario.Profiles.{get_obs_thresh}

-- `s.mock_…[i] if s.mock_… else otherwise`, with `str` on the entry. An empty list is falsy;
-- `none` is an IndexError.
unfoldable pub entry_or {ℓ} :
    {A : Type ℓ} → (A → String) → String → Option (List A) → ℕ → Option String
entry_or text otherwise none i = some otherwise
entry_or text otherwise (some []) i = some otherwise
entry_or text otherwise (some (x ∷ xs)) i = do y ← get_elem? (x ∷ xs) i; some (text y)

-- `entry or ""`
abbrev pub or_empty : Option String → String
or_empty none = ""
or_empty (some s) = s

abbrev flag_text : Option Bool → String
flag_text (some true) = "true"
flag_text _ = ""

-- `str(s.tcp_block_port) if s.tcp_block_port else ""`, and `str(s.autonat_refresh or 0)`
abbrev text_or : (ℤ → String) → String → Option ℤ → String
text_or str_int otherwise none = otherwise
text_or str_int otherwise (some (pos zero)) = otherwise
text_or str_int otherwise (some (pos (suc n))) = str_int (pos (suc n))
text_or str_int otherwise (some (negsuc n)) = str_int (negsuc n)

abbrev pub mock_entries : String → String → String → String → String → String → String → Dict String
mock_entries idx behavior delay jitter probability tcp quic =
    ("MOCK_BEHAVIOR_" <> idx, behavior)
    ∷ ("MOCK_DELAY_" <> idx, delay)
    ∷ ("MOCK_JITTER_" <> idx, jitter)
    ∷ ("MOCK_PROBABILITY_" <> idx, probability)
    ∷ ("MOCK_TCP_BEHAVIOR_" <> idx, tcp)
    ∷ ("MOCK_QUIC_BEHAVIOR_" <> idx, quic)
    ∷ []

module _ (str_int : ℤ → String) where
  -- The dict display.
  unfoldable pub base_env : Scenario → Dict String
  base_env s =
      ("NAT_TYPE", s.nat_type)
      ∷ ("TRANSPORT", s.transport)
      ∷ ("PACKET_LOSS", str_int s.packet_loss)
      ∷ ("LATENCY_MS", str_int s.latency_ms)
      ∷ ("TCP_BLOCK_PORT", text_or str_int "" s.tcp_block_port)
      ∷ ("PORT_REMAP", or_empty s.port_remap)
      ∷ ("PORT_FORWARD", flag_text s.port_forward)
      ∷ ("UPNP", flag_text s.upnp)
      ∷ ("OBS_ADDR_THRESH", str_int (get_obs_thresh s))
      ∷ ("AUTONAT_REFRESH", text_or str_int "0" s.autonat_refresh)
      ∷ []

  -- The assignments of one round of the loop, for index `i` and its name `idx`.
  unfoldable pub mock_round : Scenario → ℕ → String → Option (Dict String)
  unfolding entry_or
  mock_round s i idx = do
    behavior ← entry_or (λ b. b) "" s.mock_behaviors i
    delay ← entry_or str_int "0" s.mock_delays i
    jitter ← entry_or str_int "0" s.mock_jitters i
    probability ← entry_or (λ p. p) "0.5" s.mock_probabilities i
    tcp ← entry_or or_empty "" s.mock_tcp_behaviors i
    quic ← entry_or or_empty "" s.mock_quic_behaviors i
    some (mock_entries idx behavior delay jitter probability tcp quic)

  -- `build_env`; `none` is an IndexError.
  unfoldable pub build_env : Scenario → Option (Dict String)
  unfolding base_env mock_round insert_all
  build_env s = do
    first ← mock_round s 0 "1"
    second ← mock_round s 1 "2"
    third ← mock_round s 2 "3"
    some (insert_all third (insert_all second (insert_all first (base_env s))))
