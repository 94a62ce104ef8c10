-- ===== src/Figures/Program/Laws.antt =====
-- Which files the main part of results/generate_figures.py writes, and what it prints.
use mathlib.Core.List.{append_assoc, append-nil}
use autonat_project.Base.{
  String, ◌<>◌, ◌≡◌, refl, sym, ap, ◌∙◌, Bool, true, Option, none, some, List, [], ◌∷◌, ◌++◌,
  Bool-cases, inl, inr,
}
use autonat_project.Json.{Json, Python}
use autonat_project.Figures.Rates.{File}
use autonat_project.Figures.Program.{
  Effect, save, print, Drawn, ◌▷◌, printing, figure, needing, toggles_file, fig_convergence_heatmap,
  figures_main,
}

-- The effects are a beginning of the expected ones, and are all of them if no exception has ended
-- the program.
pub record IsPart (expected : List Effect) (d : Drawn) : Type 0 where
  pub later : List Effect
  pub begins : expected ≡ d.effects ++ later
  pub complete : d.ended ≡ true → d.effects ≡ expected

-- A file, and the line that names it.
abbrev pub drawn : String → List Effect
drawn file = save file ∷ print ("  " <> file) ∷ []

-- What there is to expect, by what the figure needs.
abbrev pub drawn_or {ℓ} : {B : Type ℓ} → Option B → String → List Effect → List Effect
drawn_or none file otherwise = otherwise
drawn_or (some found) file otherwise = drawn file

whole : (d : Drawn) → IsPart d.effects d
whole d = record { later = []; begins = sym (append-nil d.effects); complete = λ h. refl }

parts-IsPart :
    (xs ys : List Effect) (a b : Drawn) → IsPart xs a → IsPart ys b → IsPart (xs ++ ys) (a ▷ b)
unfolding ◌▷◌
parts-IsPart xs ys a b p q = elim (Bool-cases a.ended) [
  | inl e ↦
      rw (◌▷◌, e)
        (record {
          later = q.later;
          begins =
              rw (sym (p.complete e)) (
                ap (λ t. a.effects ++ t) q.begins ∙ sym (append_assoc a.effects b.effects q.later));
          complete = λ h. rw (p.complete e, q.complete h) refl;
        })
  | inr e ↦
      rw (◌▷◌, e)
        (record {
          later = p.later ++ ys;
          begins = rw (p.begins) (append_assoc a.effects p.later ys);
          complete = λ h. absurd (cc h);
        })
]

figure-IsPart {ℓ} :
    {A : Type ℓ} (draws : String → Bool) (file : String) (o : Option A)
    → IsPart (drawn file) (figure draws file o)
unfolding figure
figure-IsPart draws file none = record {
  later = drawn file;
  begins = refl;
  complete = λ h. absurd (cc h);
}
figure-IsPart draws file (some a) = elim (Bool-cases (draws file)) [
  | inl e ↦ rw e (record { later = []; begins = refl; complete = λ h. refl })
  | inr e ↦ rw e (record { later = drawn file; begins = refl; complete = λ h. absurd (cc h) })
]

needing-IsPart {ℓ} :
    {B : Type ℓ} (missing : Drawn) (draw : B → Drawn) (file : String) (o : Option B)
    → ((found : B) → IsPart (drawn file) (draw found))
    → IsPart (drawn_or o file missing.effects) (needing missing draw o)
unfolding needing
needing-IsPart missing draw file none h = whole missing
needing-IsPart missing draw file (some found) h = h found

abbrev pub skipping : String → List Effect
skipping what = print ("  Skipping: no " <> what <> " data") ∷ []

-- What the program does when nothing raises an exception: the directories say which figures.
abbrev pub expected : (String → Option (List File)) → Option (List String) → String → List Effect
expected list_dir toggles outdir =
    let baseline = list_dir "full-matrix-20260320T090848Z" in
    let latency = list_dir "high-latency-20260320T134357Z" in
    let loss = list_dir "packet-loss-20260320T140258Z" in
    (print "Generating figures..." ∷ [])
    ++ (drawn_or baseline "01_convergence.png" (skipping "baseline")
        ++ (drawn_or latency "03_latency_impact.png" (skipping "latency")
            ++ (drawn_or loss "04_packet_loss_impact.png" (skipping "packet-loss")
                ++ (drawn_or baseline "05_detection_correctness.png" []
                    ++ (drawn_or toggles "06_time_to_update.png" (skipping "TTU")
                        ++ (drawn "07_fnr_fpr_summary.png"
                            ++ ((drawn "08_convergence_heatmap_tcp.png"
                                  ++ drawn "08_convergence_heatmap_quic.png")
                                ++ (drawn "10_v1_v2_gap_comparison.png"
                                    ++ (drawn_or baseline "11_protocol_overhead.png"
                                          (skipping "baseline")
                                        ++ print ("\nAll figures saved to " <> outdir <> "/")
                                          ∷ [])))))))))

-- The program draws the figures in their order, each of them only when the directory, or the file
-- of toggle results, is there that it needs, and prints the name of each file after it is saved;
-- otherwise it prints that the figure is skipped, but for the figure on detection, which is left
-- out in silence. What it has done is always a beginning of this, also when a figure raises an
-- exception, and is all of it when none does.
pub figures_main_lem :
    (py : Python) (to_float : Json → Option Json) (less above : Json → Json → Bool)
    (capitalize : String → String) (list_dir : String → Option (List File))
    (gap_dirs : List (String × List File)) (draws : String → Bool) (outdir : String)
    → IsPart
        (expected list_dir
          (toggles_file py to_float less above capitalize list_dir gap_dirs draws)
          outdir)
        (figures_main py to_float less above capitalize list_dir gap_dirs draws outdir)
unfolding figures_main fig_convergence_heatmap
figures_main_lem py to_float less above capitalize list_dir gap_dirs draws outdir =
    parts-IsPart _ _ _ _ (whole (printing "Generating figures...")) (
      parts-IsPart _ _ _ _ (needing-IsPart _ _ _ _ (λ files. figure-IsPart draws _ _)) (
        parts-IsPart _ _ _ _ (needing-IsPart _ _ _ _ (λ files. figure-IsPart draws _ _)) (
          parts-IsPart _ _ _ _ (needing-IsPart _ _ _ _ (λ files. figure-IsPart draws _ _)) (
            parts-IsPart _ _ _ _ (needing-IsPart _ _ _ _ (λ files. figure-IsPart draws _ _)) (
              parts-IsPart _ _ _ _ (needing-IsPart _ _ _ _ (λ lines. figure-IsPart draws _ _)) (
                parts-IsPart _ _ _ _ (figure-IsPart draws _ _) (
                  parts-IsPart _ _ _ _
                    (parts-IsPart _ _ _ _ (figure-IsPart draws _ _) (figure-IsPart draws _ _))
                    (parts-IsPart _ _ _ _ (figure-IsPart draws _ _) (
                      parts-IsPart _ _ _ _
                        (needing-IsPart _ _ _ _ (λ files. figure-IsPart draws _ _))
                        (whole (printing ("\nAll figures saved to " <> outdir <> "/"))))))))))))
