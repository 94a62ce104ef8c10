-- ===== src/Figures/Names/Parts.antt =====
-- The label of a run, by `build_run_label` of testbed/run.py, as the parts between its dashes.
use autonat_project.Base.{
  ℕ, zero, suc, String, ◌<>◌, ◌≡◌, refl, sym, ap, ◌∙◌, List, [], ◌∷◌, ◌++◌, inl, inr, if◌then◌else◌,
  Bool-cases, ◌==◌, eq_iff,
}
use Prim.Native.Char.{Char}
use autonat_project.Base.Int.{ℤ, pos, ltb_ℤ}
use autonat_project.Base.Show.{show, show_ℕ}
use autonat_project.Base.Text.Laws.{onto, onto_assoc, onto_nil, append_lem}
use autonat_project.Base.Split.Laws.{after, onto_after}
use autonat_project.Figures.Names.Laws.{flag}
use autonat_project.Json.{truthy}
use autonat_project.Scenario.Defs.{Scenario}
use autonat_project.Scenario.Label.{any_mock, suffix, build_run_label}

-- The part of the client, of the number of the run, and all behind the transport.
abbrev pub client_part : String → List String
client_part client = if client == "go" then [] else client ∷ []

abbrev pub run_part : ℤ → ℕ → List String
run_part runs k = if ltb_ℤ (pos 1) runs then onto "run" (show_ℕ k) ∷ [] else []

abbrev pub servers_part : Scenario → String
servers_part s = if any_mock s.mock_behaviors then "mock" else s.server_count

after_append : (c : Char) (ps qs : List String) → after c ps <> after c qs ≡ after c (ps ++ qs)
after_append c ps qs = append_lem (after c ps) (after c qs) ∙ onto_after c ps qs

client_text :
    (client : String)
    → (if client == "go" then "" else "-" <> client) ≡ after "-" (client_part client)
client_text client = elim (Bool-cases (client == "go")) [
  | inl e ↦ rw (e) refl
  | inr e ↦ rw (e) (append_lem "-" client ∙ ap (onto "-") (sym (onto_nil client)))
]

suffix_loss : (n : ℕ) → suffix show "-loss" (pos n) ≡ after "-" (flag "loss" n)
unfolding suffix truthy show
suffix_loss zero = refl
suffix_loss (suc n) = append_lem "-loss" (show_ℕ (suc n)) ∙ ap (onto "-") (sym (onto_nil _))

suffix_lat : (n : ℕ) → suffix show "-lat" (pos n) ≡ after "-" (flag "lat" n)
unfolding suffix truthy show
suffix_lat zero = refl
suffix_lat (suc n) = append_lem "-lat" (show_ℕ (suc n)) ∙ ap (onto "-") (sym (onto_nil _))

run_text :
    (runs : ℤ) (k : ℕ)
    → (if ltb_ℤ (pos 1) runs then "-run" <> show (pos k) else "") ≡ after "-" (run_part runs k)
unfolding show
run_text runs k = elim (Bool-cases (ltb_ℤ (pos 1) runs)) [
  | inl e ↦ rw (e) (append_lem "-run" (show_ℕ k) ∙ ap (onto "-") (sym (onto_nil _)))
  | inr e ↦ rw (e) refl
]

head_text :
    (nat transport servers : String)
    → nat <> "-" <> transport <> "-" <> servers ≡ onto nat (after "-" (transport ∷ servers ∷ []))
head_text nat transport servers =
    append_lem nat ("-" <> transport <> "-" <> servers)
    ∙ ap (onto nat) (
        append_lem "-" (transport <> "-" <> servers)
        ∙ ap (onto "-") (
            append_lem transport ("-" <> servers)
            ∙ ap (onto transport)
                (append_lem "-" servers ∙ ap (onto "-") (sym (onto_nil servers)))))

-- The parts behind the first two.
abbrev pub tail_parts : Scenario → ℕ → ℕ → ℕ → List String
tail_parts s loss lat k =
    client_part s.client_impl ++ (flag "loss" loss ++ (flag "lat" lat ++ run_part s.runs k))

tail_text :
    (s : Scenario) (loss lat k : ℕ)
    → after "-" (client_part s.client_impl)
        <> after "-" (flag "loss" loss)
        <> after "-" (flag "lat" lat)
        <> after "-" (run_part s.runs k)
      ≡ after "-" (tail_parts s loss lat k)
tail_text s loss lat k =
    ap (λ t. after "-" (client_part s.client_impl) <> after "-" (flag "loss" loss) <> t)
      (after_append "-" (flag "lat" lat) (run_part s.runs k))
    ∙ ap (λ t. after "-" (client_part s.client_impl) <> t) (after_append "-" (flag "loss" loss) _)
    ∙ after_append "-" (client_part s.client_impl) _

pub label_text :
    (s : Scenario) (loss lat k : ℕ)
    → s.name ≡ ""
    → s.packet_loss ≡ pos loss
    → s.latency_ms ≡ pos lat
    → build_run_label show s (pos k)
      ≡ onto s.nat_type (after "-" (s.transport ∷ servers_part s ∷ tail_parts s loss lat k))
unfolding build_run_label
label_text s loss lat k hn hl ht =
    rw
      (
        (eq_iff s.name "").1 hn,
        hl,
        ht,
        client_text s.client_impl,
        suffix_loss loss,
        suffix_lat lat,
        run_text s.runs k,
        head_text s.nat_type s.transport (servers_part s),
        tail_text s loss lat k,
      )
      (append_lem (onto s.nat_type (after "-" (s.transport ∷ servers_part s ∷ []))) _
        ∙ onto_assoc s.nat_type (after "-" (s.transport ∷ servers_part s ∷ [])) _
        ∙ ap (onto s.nat_type)
            (onto_after "-" (s.transport ∷ servers_part s ∷ []) (tail_parts s loss lat k)))
