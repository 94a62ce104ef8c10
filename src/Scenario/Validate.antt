-- ===== src/Scenario/Validate.antt =====
-- `validate` of testbed/run.py: the first check that fails ends the run.
pub mod Checks
pub mod Accepts
use Prim.Native.Char.{code}
use autonat_project.Base.{
  ℕ, ◌+◌, String, Bool, true, false, not, ◌&&◌, ◌||◌, Option, none, some, List, [], ◌∷◌, ◌++◌, ◌==◌,
  length, eqb, leb, if◌then◌else◌,
}
use autonat_project.Base.Int.{ℤ, pos, negsuc, leb_ℤ, ltb_ℤ, pos_part, neg_part}
use autonat_project.Scenario.Defs.{
  Scenario, Toggle, Assertion, Probability, is_one_of, valid_nat_types, valid_transports,
  valid_server_counts, valid_mock_behaviors, valid_assertion_types, valid_toggle_actions,
  valid_toggle_waits, valid_client_impls,
}

-- What the message of `_fail` names.
pub data Problem : Type 0 where
  client_impl nat_type transport server_count packet_loss timeout_s runs : Problem
  port_remap tcp_block_port mock_behaviors_length mock_behavior : Problem
  mock_delays_length mock_jitters_length mock_probabilities_length mock_probability : Problem
  mock_tcp_length mock_tcp_value mock_quic_length mock_quic_value : Problem
  toggle_action toggle_wait_for assertion_type : Problem

-- A condition under which the run fails, with its problem.
abbrev pub Check : Type 0
Check = Bool × Problem

unfoldable pub first_failure : List Check → Option Problem
first_failure [] = none
first_failure ((fails, p) ∷ rest) = if fails then some p else first_failure rest

is_digit : ℕ → Bool
is_digit c = leb b'0' c && leb c b'9'

-- `\d*$`, where `$` also stands before a final line feed; the flag says that a digit was read.
digits_end : Bool → String → Bool
digits_end seen String.[] = seen
digits_end seen (String.◌∷◌ c String.[]) = is_digit (code c) || (seen && eqb (code c) 10)
digits_end seen (String.◌∷◌ c (String.◌∷◌ d s)) =
    is_digit (code c) && digits_end true (String.◌∷◌ d s)

digits_colon : Bool → String → Bool
digits_colon seen String.[] = false
digits_colon seen (String.◌∷◌ c s) =
    let more = digits_colon true s in
    if is_digit (code c) then more else seen && eqb (code c) b':' && digits_end false s

-- `re.match(r"^\d+:\d+$", text)`, for ASCII texts
unfoldable pub is_port_remap : String → Bool
unfolding digits_colon digits_end is_digit
is_port_remap text = digits_colon false text

-- The checks of a loop over a list.
unfoldable pub each {ℓ} : {A : Type ℓ} → (A → List Check) → List A → List Check
each f [] = []
each f (x ∷ xs) = f x ++ each f xs

-- The checks of one block after another.
unfoldable pub concat : List (List Check) → List Check
concat [] = []
concat (cs ∷ rest) = cs ++ concat rest

-- The checks under `is not None`.
abbrev pub when_given {ℓ} : {A : Type ℓ} → Option A → (A → List Check) → List Check
when_given none f = []
when_given (some a) f = f a

-- `s.mock_behaviors is None and s.server_count not in VALID_SERVER_COUNTS`
unfoldable pub server_count_fails : Option (List String) → String → Bool
server_count_fails none n = not (is_one_of n valid_server_counts)
server_count_fails (some b) n = false

unfoldable pub port_remap_fails : Option String → Bool
port_remap_fails none = false
port_remap_fails (some text) = if text == "" then false else not (is_port_remap text)

unfoldable pub block_port_fails : Option ℤ → Bool
block_port_fails none = false
block_port_fails (some p) = not (leb_ℤ (pos 1) p && leb_ℤ p (pos 65535))

unfoldable pub field_checks : Scenario → List Check
field_checks s =
    (not (is_one_of s.client_impl valid_client_impls), client_impl)
    ∷ (not (is_one_of s.nat_type valid_nat_types), nat_type)
    ∷ (not (is_one_of s.transport valid_transports), transport)
    ∷ (server_count_fails s.mock_behaviors s.server_count, server_count)
    ∷ (ltb_ℤ s.packet_loss (pos 0) || ltb_ℤ (pos 100) s.packet_loss, packet_loss)
    ∷ (ltb_ℤ s.timeout_s (pos 1), timeout_s)
    ∷ (ltb_ℤ s.runs (pos 1), runs)
    ∷ (port_remap_fails s.port_remap, port_remap)
    ∷ (block_port_fails s.tcp_block_port, tcp_block_port)
    ∷ []

-- `len(val) != 3`
abbrev pub not_three {ℓ} : {A : Type ℓ} → List A → Bool
not_three xs = not (eqb (length xs) 3)

abbrev pub three_check {ℓ} : {A : Type ℓ} → Problem → List A → List Check
three_check p xs = (not_three xs, p) ∷ []

unfoldable pub behavior_checks : List String → List Check
unfolding each
behavior_checks bs =
    (not_three bs, mock_behaviors_length)
    ∷ each (λ b. (not (is_one_of b valid_mock_behaviors), mock_behavior) ∷ []) bs

-- `b and b not in VALID_MOCK_BEHAVIORS`
abbrev pub override_fails : Option String → Bool
override_fails none = false
override_fails (some b) = if b == "" then false else not (is_one_of b valid_mock_behaviors)

-- One round of the loop over "mock_tcp_behaviors" and "mock_quic_behaviors".
unfoldable pub override_checks : Problem → Problem → List (Option String) → List Check
unfolding each
override_checks length_problem value_problem bs =
    (not_three bs, length_problem) ∷ each (λ b. (override_fails b, value_problem) ∷ []) bs

unfoldable pub toggle_checks : Toggle → List Check
toggle_checks t =
    (not (is_one_of t.action valid_toggle_actions), toggle_action)
    ∷ (not (is_one_of t.wait_for valid_toggle_waits), toggle_wait_for)
    ∷ []

abbrev pub type_check : Assertion → List Check
type_check a = (not (is_one_of a.type valid_assertion_types), assertion_type) ∷ []

-- `0.0 <= p <= 1.0` on floats is a parameter.
module _ (in_unit : Probability → Bool) where
  unfoldable pub probability_checks : List Probability → List Check
  unfolding each
  probability_checks ps =
      (not_three ps, mock_probabilities_length)
      ∷ each (λ p. (not (in_unit p), mock_probability) ∷ []) ps

  -- The blocks of the loop's body.
  abbrev pub blocks : Scenario → List (List Check)
  blocks s =
      field_checks s
      ∷ when_given s.mock_behaviors behavior_checks
      ∷ when_given s.mock_delays (three_check mock_delays_length)
      ∷ when_given s.mock_jitters (three_check mock_jitters_length)
      ∷ when_given s.mock_probabilities probability_checks
      ∷ when_given s.mock_tcp_behaviors (override_checks mock_tcp_length mock_tcp_value)
      ∷ when_given s.mock_quic_behaviors (override_checks mock_quic_length mock_quic_value)
      ∷ when_given s.dynamic_toggles (each toggle_checks)
      ∷ when_given s.assertions (each type_check)
      ∷ []

  unfoldable pub checks : Scenario → List Check
  unfolding field_checks concat
  checks s = concat (blocks s)

  -- The body of the loop: the first check that fails.
  unfoldable pub validate_one : Scenario → Option Problem
  unfolding checks first_failure
  validate_one s = first_failure (checks s)

  unfoldable pub validate_from : ℕ → List Scenario → Option (ℕ × Problem)
  validate_from i [] = none
  validate_from i (s ∷ rest) = elim (validate_one s) [
    | some p ↦ some (i + 1, p)
    | none ↦ validate_from (i + 1) rest
  ]

  -- `validate`: the number of the scenario that the message names, and its problem.
  unfoldable pub validate : List Scenario → Option (ℕ × Problem)
  unfolding validate_from validate_one
  validate scenarios = validate_from 0 scenarios
