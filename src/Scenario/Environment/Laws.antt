-- ===== src/Scenario/Environment/Laws.antt =====
-- A valid scenario has an environment.
use autonat_project.Base.{
  ℕ, ◌<◌, String, ◌≡◌, refl, sym, Bool, Option, none, some, List, [], ◌∷◌, arith,
}
use autonat_project.Base.Int.{ℤ}
use autonat_project.Base.Dict.{Dict, lookup, insert, insert_all}
use autonat_project.Metrics.Stats.Order.{get_elem?_lt}
use autonat_project.Scenario.Defs.{Scenario, Probability}
use autonat_project.Scenario.Validate.{validate_one}
use autonat_project.Scenario.Validate.Checks.{Given}
use autonat_project.Scenario.Validate.Accepts.{IsValid, Three, validate_one_iff}
use autonat_project.Scenario.Environment.{
  entry_or, base_env, mock_entries, mock_round, build_env, or_empty,
}
use autonat_project.Scenario.Profiles.{get_obs_thresh}

-- A list of three entries, or none, has an entry in each round.
entry_or-Three :
    {A : Type 0} (text : A → String) (otherwise : String) (o : Option (List A)) (i : ℕ)
    → Given o Three
    → i < 3
    → (t : String) × (entry_or text otherwise o i ≡ some t)
unfolding entry_or
entry_or-Three text otherwise none i h lt = (otherwise, refl)
entry_or-Three text otherwise (some []) i h lt = (otherwise, refl)
entry_or-Three text otherwise (some (x ∷ xs)) i h lt =
    let (y, e) = get_elem?_lt (x ∷ xs) i (omega arith) in (text y, rw e)

-- What holds of a given value follows from what is known of it.
Given-map :
    {A : Type 0} {P Q : A → Type 0} (o : Option A) → ((a : A) → P a → Q a) → Given o P → Given o Q
Given-map none f h = tt
Given-map (some a) f h = f a h

module _ (in_unit : Probability → Bool) (str_int : ℤ → String) where
  -- The settings of one mock server: its index's entry of each list, or the default.
  pub record Settings (s : Scenario) (i : ℕ) (idx : String) : Type 0 where
    pub behavior : String
    pub delay : String
    pub jitter : String
    pub probability : String
    pub tcp : String
    pub quic : String
    pub is_behavior : entry_or (λ b. b) "" s.mock_behaviors i ≡ some behavior
    pub is_round :
        mock_round str_int s i idx
        ≡ some (mock_entries idx behavior delay jitter probability tcp quic)

  settings : (s : Scenario) (i : ℕ) (idx : String) → IsValid in_unit s → i < 3 → Settings s i idx
  unfolding mock_round
  settings s i idx (f, (bs, (ds, (js, (ps, (ts, (qs, _))))))) lt =
      let (b, eb) =
        entry_or-Three (λ b. b) "" s.mock_behaviors i (Given-map s.mock_behaviors (λ a h. h.0) bs)
          lt in
      let (d, ed) = entry_or-Three str_int "0" s.mock_delays i ds lt in
      let (j, ej) = entry_or-Three str_int "0" s.mock_jitters i js lt in
      let (p, ep) =
        entry_or-Three (λ p. p) "0.5" s.mock_probabilities i
          (Given-map s.mock_probabilities (λ a h. h.0) ps) lt in
      let (t, et) =
        entry_or-Three or_empty "" s.mock_tcp_behaviors i
          (Given-map s.mock_tcp_behaviors (λ a h. h.0) ts) lt in
      let (q, eq) =
        entry_or-Three or_empty "" s.mock_quic_behaviors i
          (Given-map s.mock_quic_behaviors (λ a h. h.0) qs) lt in
      record {
        behavior = b;
        delay = d;
        jitter = j;
        probability = p;
        tcp = t;
        quic = q;
        is_behavior = eb;
        is_round = rw (eb, ed, ej, ep, et, eq);
      }

  -- For a scenario that `validate` lets through, `build_env` raises no IndexError. The environment
  -- has the scenario's NAT type, its transport and its observed-address threshold, and the
  -- behaviour of each mock server, empty if the scenario has none.
  pub build_env_valid :
      (s : Scenario)
      → validate_one in_unit s ≡ none
      → (env : Dict String) × (build_env str_int s ≡ some env)
        × (lookup "NAT_TYPE" env ≡ some s.nat_type)
        × (lookup "TRANSPORT" env ≡ some s.transport)
        × (lookup "OBS_ADDR_THRESH" env ≡ some (str_int (get_obs_thresh s)))
        × (lookup "MOCK_BEHAVIOR_1" env ≡ entry_or (λ b. b) "" s.mock_behaviors 0)
        × (lookup "MOCK_BEHAVIOR_2" env ≡ entry_or (λ b. b) "" s.mock_behaviors 1)
        × (lookup "MOCK_BEHAVIOR_3" env ≡ entry_or (λ b. b) "" s.mock_behaviors 2)
  unfolding build_env lookup insert
  build_env_valid s ok =
      let valid = (validate_one_iff in_unit s).0 ok in
      let a = settings s 0 "1" valid (omega arith) in
      let b = settings s 1 "2" valid (omega arith) in
      let c = settings s 2 "3" valid (omega arith) in
      (
        insert_all (mock_entries "3" c.behavior c.delay c.jitter c.probability c.tcp c.quic) (
            insert_all (mock_entries "2" b.behavior b.delay b.jitter b.probability b.tcp b.quic) (
              insert_all (mock_entries "1" a.behavior a.delay a.jitter a.probability a.tcp a.quic)
                (base_env str_int s))),
        rw (a.is_round, b.is_round, c.is_round),
        refl,
        refl,
        refl,
        sym a.is_behavior,
        sym b.is_behavior,
        sym c.is_behavior,
      )
