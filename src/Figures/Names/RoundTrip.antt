-- ===== src/Figures/Names/RoundTrip.antt =====
-- The name of a result file, read again: `build_run_label` of testbed/run.py under
-- `parse_scenario_name` of results/generate_figures.py.
use autonat_project.Base.{
  ℕ, String, ◌<>◌, ◌≡◌, refl, ap, ◌∙◌, some, List, [], ◌∷◌, All, OneOf, OneOf-All,
}
use autonat_project.Base.Int.{pos}
use autonat_project.Base.Show.{show}
use autonat_project.Base.Text.{replace}
use autonat_project.Base.Text.Laws.{Avoids, onto, append_lem, Avoids-onto, replace-suffix}
use autonat_project.Base.Split.{split}
use autonat_project.Base.Split.Laws.{after, split-after}
use autonat_project.Scenario.Defs.{
  Scenario, valid_nat_types, valid_transports, valid_server_counts, valid_client_impls,
}
use autonat_project.Scenario.Label.{build_run_label}
use autonat_project.Figures.Names.{nat_and_rest, parse_scenario_name}
use autonat_project.Figures.Names.Laws.{nonzero}
use autonat_project.Figures.Names.Parts.{servers_part, tail_parts, label_text}
use autonat_project.Figures.Names.Plain.{
  Plain, tested, avoids, avoids-Avoids, Plain-AtParts, servers_part-All, tail-Plain, latency-read,
  loss-read,
}

-- The parts behind the NAT type.
abbrev rest_parts : Scenario → ℕ → ℕ → ℕ → List String
rest_parts s loss lat k = s.transport ∷ servers_part s ∷ tail_parts s loss lat k

rest-Plain :
    (s : Scenario) (loss lat k : ℕ)
    → OneOf s.transport valid_transports
    → OneOf s.server_count valid_server_counts
    → OneOf s.client_impl valid_client_impls
    → All Plain (rest_parts s loss lat k)
unfolding avoids
rest-Plain s loss lat k ht hs hc = (
  OneOf-All Plain s.transport valid_transports ht
      (tested "tcp" refl refl, (tested "quic" refl refl, (tested "both" refl refl, tt))),
  (servers_part-All Plain s hs Plain-AtParts, tail-Plain s loss lat k hc),
)

no_dashes : (ps : List String) → All Plain ps → All (Avoids b'-') ps
unfolding Plain
no_dashes [] h = tt
no_dashes (p ∷ ps) h = (h.0.0, no_dashes ps h.1)

no_dot : (ps : List String) → All Plain ps → Avoids b'.' (after "-" ps)
unfolding Plain
no_dot [] h = tt
no_dot (p ∷ ps) h = (refl, Avoids-onto b'.' p (after "-" ps) h.0.1 (no_dot ps h.1))

abbrev ReadsNat : List String → String → Type 0
ReadsNat ps nat =
    Avoids b'.' nat × (nat_and_rest (split b'-' (onto nat (after "-" ps))) ≡ some (nat, ps))

nat-read :
    (nat : String) (ps : List String) → OneOf nat valid_nat_types → All Plain ps → ReadsNat ps nat
unfolding nat_and_rest avoids Plain
nat-read nat ps hn all =
    let free = no_dashes ps all in
    let cone = avoids-Avoids b'-' "cone" refl in
    let restricted = avoids-Avoids b'-' "restricted" refl in
    OneOf-All (ReadsNat ps) nat valid_nat_types hn (
      (
        avoids-Avoids b'.' "none" refl,
        ap nat_and_rest (split-after "-" "none" ps (avoids-Avoids b'-' "none" refl) free),
      ),
      (
        (
          avoids-Avoids b'.' "full-cone" refl,
          ap nat_and_rest
              (split-after "-" "full" ("cone" ∷ ps) (avoids-Avoids b'-' "full" refl) (cone, free)),
        ),
        (
          (
            avoids-Avoids b'.' "address-restricted" refl,
            ap nat_and_rest (
                split-after "-" "address" ("restricted" ∷ ps) (avoids-Avoids b'-' "address" refl)
                  (restricted, free)),
          ),
          (
            (
              avoids-Avoids b'.' "port-restricted" refl,
              ap nat_and_rest (
                  split-after "-" "port" ("restricted" ∷ ps) (avoids-Avoids b'-' "port" refl)
                    (restricted, free)),
            ),
            (
              (
                avoids-Avoids b'.' "symmetric" refl,
                ap nat_and_rest
                    (split-after "-" "symmetric" ps (avoids-Avoids b'-' "symmetric" refl) free),
              ),
              tt,
            ),
          ),
        ),
      ),
    )

unextended :
    (nat : String) (ps : List String)
    → Avoids b'.' nat
    → All Plain ps
    → replace ".json" "" (onto nat (after "-" ps) <> ".json") ≡ onto nat (after "-" ps)
unextended nat ps h all =
    ap (replace ".json" "") (append_lem (onto nat (after "-" ps)) ".json")
    ∙ replace-suffix "." "json" (onto nat (after "-" ps))
        (Avoids-onto b'.' nat (after "-" ps) h (no_dot ps all))

-- Take a scenario without a name, with a valid NAT type, transport, server count and client, whose
-- loss and latency are not negative. The name of the result file of its run `k`, which is
-- `build_run_label` and `.json`, is read by `parse_scenario_name` as the scenario's NAT type and
-- transport, and its latency and loss, each of them left out where it is zero.
pub parse_scenario_name-build_run_label :
    (s : Scenario) (loss lat k : ℕ)
    → s.name ≡ ""
    → OneOf s.nat_type valid_nat_types
    → OneOf s.transport valid_transports
    → OneOf s.server_count valid_server_counts
    → OneOf s.client_impl valid_client_impls
    → s.packet_loss ≡ pos loss
    → s.latency_ms ≡ pos lat
    → parse_scenario_name (build_run_label show s (pos k) <> ".json")
      ≡ some (
          some
            (s.nat_type, s.transport, record { latency_ms = nonzero lat; loss_pct = nonzero loss }))
unfolding parse_scenario_name
parse_scenario_name-build_run_label s loss lat k hn nat transport servers client hl ht =
    let all = rest-Plain s loss lat k transport servers client in
    let reads = nat-read s.nat_type (rest_parts s loss lat k) nat all in
    rw
      (
        label_text s loss lat k hn hl ht,
        parse_scenario_name,
        unextended s.nat_type (rest_parts s loss lat k) reads.0 all,
        reads.1,
        latency-read s loss lat k servers client,
        loss-read s loss lat k servers client,
      )
      refl
