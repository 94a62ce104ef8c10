-- ===== src/Scenario/Validate/Accepts.antt =====
-- What `validate` accepts.
use autonat_project.Base.{
  ℕ, ◌+◌, String, ◌≡◌, refl, ◌↔◌, ◌⊎◌, inl, inr, Bool, true, false, not, ◌||◌, Option, none, some,
  List, [], ◌∷◌, ◌==◌, eq_iff, All, OneOf, length, arith, Bool-cases, Option-cases,
}
use autonat_project.Base.Int.{ℤ, pos, ◌≤ℤ◌, ltb_ℤ}
use autonat_project.Scenario.Defs.{
  Scenario, Toggle, Assertion, Probability, is_one_of, valid_nat_types, valid_transports,
  valid_server_counts, valid_mock_behaviors, valid_assertion_types, valid_toggle_actions,
  valid_toggle_waits, valid_client_impls,
}
use autonat_project.Scenario.Validate.{
  Problem, mock_delays_length, mock_jitters_length, mock_tcp_length, mock_tcp_value,
  mock_quic_length, mock_quic_value, three_check, blocks, mock_behavior, mock_probability,
  assertion_type, is_port_remap, each, server_count_fails, port_remap_fails, block_port_fails,
  field_checks, not_three, behavior_checks, override_fails, override_checks, toggle_checks,
  type_check, probability_checks, checks, validate_one, validate_from, validate,
}
use autonat_project.Scenario.Validate.Checks.{
  is_one_of_iff, is_one_of→OneOf, member_passes, Passes, first_failure→Passes, Passes→first_failure,
  Given, when_given_iff, each_iff, each_single_iff, both_iff, last_iff, concat_iff, trans_iff,
}

three_iff {ℓ} : {A : Type ℓ} (xs : List A) → (not_three xs ≡ false) ↔ (length xs ≡ 3)
three_iff xs = ground arith

abbrev pub Three {ℓ} : {A : Type ℓ} → List A → Type 0
Three xs = length xs ≡ 3

abbrev pub BehaviorsOk : List String → Type 0
BehaviorsOk bs = Three bs × All (λ b. OneOf b valid_mock_behaviors) bs

abbrev pub OverrideOk : Option String → Type 0
OverrideOk none = Unit
OverrideOk (some b) = (b ≡ "") ⊎ OneOf b valid_mock_behaviors

abbrev pub OverridesOk : List (Option String) → Type 0
OverridesOk bs = Three bs × All OverrideOk bs

abbrev pub ToggleOk : Toggle → Type 0
ToggleOk t = OneOf t.action valid_toggle_actions × OneOf t.wait_for valid_toggle_waits

override_iff : (o : Option String) → (override_fails o ≡ false) ↔ OverrideOk o
override_iff none = (λ h. tt, λ u. refl)
override_iff (some b) = elim (Bool-cases (b == "")) [
  | inl e ↦ rw e (λ h. inl ((eq_iff b "").0 e), λ u. refl)
  | inr e ↦ rw e (
    λ h. inr (is_one_of→OneOf b valid_mock_behaviors h),
    λ u. elim u [
      | inl f ↦ absurd (cc (e, (eq_iff b "").1 f))
      | inr m ↦ member_passes b valid_mock_behaviors m
    ],
  )
]

behaviors_iff : (bs : List String) → Passes (behavior_checks bs) ↔ BehaviorsOk bs
unfolding behavior_checks
behaviors_iff bs = both_iff (three_iff bs) (
    each_single_iff (λ b. not (is_one_of b valid_mock_behaviors)) mock_behavior
      (λ b. OneOf b valid_mock_behaviors) bs (λ b. is_one_of_iff b valid_mock_behaviors))

overrides_iff :
    (p q : Problem) (bs : List (Option String)) → Passes (override_checks p q bs) ↔ OverridesOk bs
unfolding override_checks
overrides_iff p q bs =
    both_iff (three_iff bs) (each_single_iff override_fails q OverrideOk bs override_iff)

toggles_iff : (ts : List Toggle) → Passes (each toggle_checks ts) ↔ All ToggleOk ts
unfolding toggle_checks
toggles_iff ts = each_iff toggle_checks ToggleOk ts (λ t.
    both_iff (is_one_of_iff t.action valid_toggle_actions)
      (last_iff (is_one_of_iff t.wait_for valid_toggle_waits)))

abbrev pub TypesOk : List Assertion → Type 0
TypesOk ts = All (λ (a : Assertion). OneOf a.type valid_assertion_types) ts

types_iff : (ts : List Assertion) → Passes (each type_check ts) ↔ TypesOk ts
types_iff ts =
    each_single_iff (λ (a : Assertion). not (is_one_of a.type valid_assertion_types)) assertion_type
      (λ (a : Assertion). OneOf a.type valid_assertion_types) ts
      (λ (a : Assertion). is_one_of_iff a.type valid_assertion_types)

abbrev pub ServersOk : Option (List String) → String → Type 0
ServersOk none n = OneOf n valid_server_counts
ServersOk (some b) n = Unit

servers_iff :
    (o : Option (List String)) (n : String) → (server_count_fails o n ≡ false) ↔ ServersOk o n
unfolding server_count_fails
servers_iff none n = is_one_of_iff n valid_server_counts
servers_iff (some b) n = (λ h. tt, λ u. refl)

abbrev pub RemapOk : Option String → Type 0
RemapOk o = Given o (λ text. (text ≡ "") ⊎ (is_port_remap text ≡ true))

remap_iff : (o : Option String) → (port_remap_fails o ≡ false) ↔ RemapOk o
unfolding port_remap_fails
remap_iff none = (λ h. tt, λ u. refl)
remap_iff (some text) = ground (arith, eq_iff text "")

abbrev pub PortOk : Option ℤ → Type 0
PortOk o = Given o (λ p. (pos 1 ≤ℤ p) × (p ≤ℤ pos 65535))

port_iff : (o : Option ℤ) → (block_port_fails o ≡ false) ↔ PortOk o
unfolding block_port_fails
port_iff none = (λ h. tt, λ u. refl)
port_iff (some p) = ground arith

abbrev pub FieldsOk : Scenario → Type 0
FieldsOk s =
    OneOf s.client_impl valid_client_impls
    × (OneOf s.nat_type valid_nat_types
        × (OneOf s.transport valid_transports
            × (ServersOk s.mock_behaviors s.server_count
                × (((pos 0 ≤ℤ s.packet_loss) × (s.packet_loss ≤ℤ pos 100))
                    × ((pos 1 ≤ℤ s.timeout_s)
                        × ((pos 1 ≤ℤ s.runs)
                            × (RemapOk s.port_remap × PortOk s.tcp_block_port)))))))

loss_iff :
    (n : ℤ) → ((ltb_ℤ n (pos 0) || ltb_ℤ (pos 100) n) ≡ false) ↔ ((pos 0 ≤ℤ n) × (n ≤ℤ pos 100))
loss_iff n = ground arith

positive_iff : (n : ℤ) → (ltb_ℤ n (pos 1) ≡ false) ↔ (pos 1 ≤ℤ n)
positive_iff n = ground arith

fields_iff : (s : Scenario) → Passes (field_checks s) ↔ FieldsOk s
unfolding field_checks
fields_iff s = both_iff (is_one_of_iff s.client_impl valid_client_impls) (
    both_iff (is_one_of_iff s.nat_type valid_nat_types) (
      both_iff (is_one_of_iff s.transport valid_transports) (
        both_iff (servers_iff s.mock_behaviors s.server_count) (
          both_iff (loss_iff s.packet_loss) (
            both_iff (positive_iff s.timeout_s) (
              both_iff (positive_iff s.runs)
                (both_iff (remap_iff s.port_remap) (last_iff (port_iff s.tcp_block_port)))))))))

module _ (in_unit : Probability → Bool) where
  abbrev pub ProbabilitiesOk : List Probability → Type 0
  ProbabilitiesOk ps = Three ps × All (λ p. in_unit p ≡ true) ps

  unit_iff : (p : Probability) → (not (in_unit p) ≡ false) ↔ (in_unit p ≡ true)
  unit_iff p = ground arith

  probabilities_iff :
      (ps : List Probability) → Passes (probability_checks in_unit ps) ↔ ProbabilitiesOk ps
  unfolding probability_checks
  probabilities_iff ps =
      both_iff (three_iff ps) (
        each_single_iff (λ p. not (in_unit p)) mock_probability (λ p. in_unit p ≡ true) ps unit_iff)

  -- What a scenario that passes validation satisfies.
  abbrev pub IsValid : Scenario → Type 0
  IsValid s =
      FieldsOk s
      × (Given s.mock_behaviors BehaviorsOk
          × (Given s.mock_delays Three
              × (Given s.mock_jitters Three
                  × (Given s.mock_probabilities ProbabilitiesOk
                      × (Given s.mock_tcp_behaviors OverridesOk
                          × (Given s.mock_quic_behaviors OverridesOk
                              × (Given s.dynamic_toggles (λ ts. All ToggleOk ts)
                                  × Given s.assertions TypesOk)))))))

  checks_iff : (s : Scenario) → Passes (checks in_unit s) ↔ IsValid s
  unfolding checks
  checks_iff s = trans_iff (concat_iff (blocks in_unit s)) (
      both_iff (fields_iff s) (
        both_iff (when_given_iff s.mock_behaviors behavior_checks BehaviorsOk behaviors_iff) (
          both_iff
            (when_given_iff s.mock_delays (three_check mock_delays_length) Three
              (λ d. last_iff (three_iff d)))
            (both_iff
              (when_given_iff s.mock_jitters (three_check mock_jitters_length) Three
                (λ j. last_iff (three_iff j)))
              (both_iff
                (when_given_iff s.mock_probabilities (probability_checks in_unit) ProbabilitiesOk
                  probabilities_iff)
                (both_iff
                  (when_given_iff s.mock_tcp_behaviors
                    (override_checks mock_tcp_length mock_tcp_value) OverridesOk
                    (overrides_iff mock_tcp_length mock_tcp_value))
                  (both_iff
                    (when_given_iff s.mock_quic_behaviors
                      (override_checks mock_quic_length mock_quic_value) OverridesOk
                      (overrides_iff mock_quic_length mock_quic_value))
                    (both_iff
                      (when_given_iff s.dynamic_toggles (each toggle_checks) (λ ts. All ToggleOk ts)
                        toggles_iff)
                      (last_iff
                        (when_given_iff s.assertions (each type_check) TypesOk types_iff))))))))))

  -- A scenario passes the loop's body exactly when it is valid.
  pub validate_one_iff : (s : Scenario) → (validate_one in_unit s ≡ none) ↔ IsValid s
  unfolding validate_one
  validate_one_iff s =
      trans_iff (first_failure→Passes (checks in_unit s), Passes→first_failure (checks in_unit s))
        (checks_iff s)

  validate_from_iff :
      (i : ℕ) (ss : List Scenario) → (validate_from in_unit i ss ≡ none) ↔ All IsValid ss
  unfolding validate_from
  validate_from_iff i [] = (λ h. tt, λ u. refl)
  validate_from_iff i (s ∷ ss) = elim (Option-cases (validate_one in_unit s)) [
    | inl e ↦
        rw (e, validate_from)
          (
            λ h. ((validate_one_iff s).0 e, (validate_from_iff (i + 1) ss).0 h),
            λ (_, hs). (validate_from_iff (i + 1) ss).1 hs,
          )
    | inr (p, e) ↦
        rw (e, validate_from)
          (λ h. absurd (cc), λ (h, _). absurd (cc (e, (validate_one_iff s).1 h)))
  ]

  -- `validate` lets a list of scenarios through exactly when every one of them is valid: known
  -- names, numbers in their ranges, and three entries in each list of mock settings.
  pub validate_iff : (ss : List Scenario) → (validate in_unit ss ≡ none) ↔ All IsValid ss
  unfolding validate
  validate_iff ss = validate_from_iff 0 ss
