-- ===== src/Figures/Bars/Laws.antt =====
-- The overhead figure draws no amplification.
use autonat_project.Base.{
  ◌≡◌, refl, inl, inr, String, ◌<>◌, ◌==◌, false, Option, none, some, List, [], ◌∷◌, map, any, All,
  Bool-cases, if◌then◌else◌, ◌>>=◌,
}
use autonat_project.Base.Always.{Always, Always-bind, Always-some}
use autonat_project.Base.Int.{pos, ltb_ℤ}
use autonat_project.Base.Dict.{Dict, lookup, insert}
use autonat_project.Base.Split.{ends_with}
use autonat_project.Json.{Json, Python}
use autonat_project.Scenario.Defs.{is_one_of}
use autonat_project.Figures.{parse_spans}
use autonat_project.Figures.Names.{Extra, parse_scenario_name}
use autonat_project.Figures.Detection.{nat_order}
use autonat_project.Figures.Overhead.{
  SessionBytes, no_bytes, session_bytes, collect_parsed, collect,
}
use autonat_project.Figures.Overhead.Laws.{session_bytes-amplification}
use autonat_project.Figures.Bars.{session_of, pair_key, overhead_bars}

-- No session has amplification bytes.
abbrev NoAmp : Dict SessionBytes → Type 0
NoAmp d = All (λ (e : String × SessionBytes). e.1.amplification_bytes ≡ pos 0) d

NoAmp-insert :
    (k : String) (b : SessionBytes) (d : Dict SessionBytes)
    → b.amplification_bytes ≡ pos 0
    → NoAmp d
    → NoAmp (insert k b d)
unfolding insert
NoAmp-insert k b [] h hs = (h, tt)
NoAmp-insert k b ((j, c) ∷ d) h (i, is) = elim (Bool-cases (j == k)) [
  | inl e ↦ rw e (h, is)
  | inr e ↦ rw e (i, NoAmp-insert k b d h is)
]

module _ (py : Python) (to_float : Json → Option Json) where
  collect_parsed-NoAmp :
      (lines : List String) (d : Dict SessionBytes) (parsed : Option (String × String × Extra))
      → NoAmp d
      → Always NoAmp (collect_parsed py to_float lines d parsed)
  unfolding collect_parsed
  collect_parsed-NoAmp lines d none h = Always-some _ d h
  collect_parsed-NoAmp lines d (some (nat, transport, extra)) h =
      elim (Bool-cases (is_one_of nat nat_order)) [
        | inl e ↦
            rw (e, collect_parsed)
              (Always-bind _ (parse_spans py to_float lines) _ (λ spans _.
                Always-bind _ (session_bytes py spans no_bytes) _ (λ bytes b. Always-some _ _ (
                  NoAmp-insert (nat <> " " <> transport) bytes d
                    (session_bytes-amplification py spans no_bytes bytes b) h))))
        | inr e ↦ rw (e, collect_parsed) (Always-some _ d h)
      ]

  collect_named-NoAmp :
      (name : String) (lines : List String) (d : Dict SessionBytes)
      → NoAmp d
      → Always NoAmp (
          if ends_with name ".json"
          then (parse_scenario_name name >>= λ parsed. collect_parsed py to_float lines d parsed)
          else some d)
  collect_named-NoAmp name lines d h = elim (Bool-cases (ends_with name ".json")) [
    | inl e ↦ rw e (
        Always-bind _ (parse_scenario_name name) _
          (λ parsed _. collect_parsed-NoAmp lines d parsed h))
    | inr e ↦ rw e (Always-some _ d h)
  ]

  collect-NoAmp :
      (files : List (String × List String)) (d : Dict SessionBytes)
      → NoAmp d
      → Always NoAmp (collect py to_float files d)
  unfolding collect
  collect-NoAmp [] d h = Always-some _ d h
  collect-NoAmp ((name, lines) ∷ files) d h =
      Always-bind _ _ _
        (λ next a. collect-NoAmp files next (collect_named-NoAmp name lines d h next a))

session_of-NoAmp :
    (d : Dict SessionBytes) (transport nat : String)
    → NoAmp d
    → (session_of d transport nat).amplification_bytes ≡ pos 0
unfolding lookup
session_of-NoAmp [] transport nat h = refl
session_of-NoAmp ((j, b) ∷ d) transport nat (h, hs) =
    elim (Bool-cases (j == pair_key nat transport)) [
      | inl e ↦ rw e h
      | inr e ↦ rw e (session_of-NoAmp d transport nat hs)
    ]

drawn-NoAmp :
    (d : Dict SessionBytes) (transport : String) (nats : List String)
    → NoAmp d
    → any
        (ltb_ℤ (pos 0))
        (map (λ (s : SessionBytes). s.amplification_bytes) (map (session_of d transport) nats))
      ≡ false
unfolding any
drawn-NoAmp d transport [] h = refl
drawn-NoAmp d transport (n ∷ nats) h =
    rw (session_of-NoAmp d transport n h) (drawn-NoAmp d transport nats h)

-- Whatever the files hold: when they are read without an exception, the overhead figure draws no
-- amplification for any transport.
pub overhead_bars-collect :
    (py : Python) (to_float : Json → Option Json) (files : List (String × List String))
    (transport : String)
    → Always (λ d. (overhead_bars d transport).with_amp ≡ false) (collect py to_float files [])
unfolding overhead_bars
overhead_bars-collect py to_float files transport d e =
    drawn-NoAmp d transport nat_order (collect-NoAmp py to_float files [] tt d e)
