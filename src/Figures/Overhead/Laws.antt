-- ===== src/Figures/Overhead/Laws.antt =====
-- The overhead figure asks for the bytes of a probe without its events.
use autonat_project.Base.{◌≡◌, refl, ◌∙◌, none, List, [], ◌∷◌, any, Bool-cases, inl, inr}
use autonat_project.Base.Int.{ℤ, ◌+ℤ◌, pos, int_laws}
use autonat_project.Base.Dict.{lookup}
use autonat_project.Base.Always.{Always, Always-bind, Always-some}
use autonat_project.Json.{str, default, is_text, Python}
use autonat_project.Trace.Attrs.{Attrs}
use autonat_project.Metrics.Overhead.{addrs_of}
use autonat_project.Figures.{FigureSpan}
use autonat_project.Figures.Overhead.{
  event_names, figure_estimate, SessionBytes, add_figure_probe, session_bytes,
}

unchanged : (r t a : ℤ) → r ≡ t +ℤ a → a ≡ pos 0 → r ≡ t
unchanged r t a h e = h ∙ rw e (omega int_laws)

module _ (py : Python) where
  figure_estimate-amplification :
      (attrs : Attrs) → Always (λ (e : ℤ × ℤ). e.1 ≡ pos 0) (figure_estimate py attrs none)
  unfolding figure_estimate event_names any
  figure_estimate-amplification attrs =
      Always-bind _ (addrs_of py (default (str "[]") (lookup "autonat.addrs" attrs))) _
        (λ addrs _. Always-some _ _ refl)

  -- No probe adds amplification bytes to the figure.
  pub session_bytes-amplification :
      (spans : List FigureSpan) (t : SessionBytes)
      → Always
          (λ (r : SessionBytes). r.amplification_bytes ≡ t.amplification_bytes)
          (session_bytes py spans t)
  unfolding session_bytes
  session_bytes-amplification [] t = Always-some _ t refl
  session_bytes-amplification (s ∷ spans) t = elim (Bool-cases (is_text "autonatv2.probe" s.name)) [
    | inl e ↦ rw e (
        Always-bind _ (figure_estimate py s.attrs none) _ (λ est a r b.
          unchanged r.amplification_bytes t.amplification_bytes est.1
            (session_bytes-amplification spans (add_figure_probe est t) r b)
            (figure_estimate-amplification s.attrs est a)))
    | inr e ↦ rw e (session_bytes-amplification spans t)
  ]
