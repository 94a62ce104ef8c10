-- ===== src/Figures/Impact.antt =====
-- `fig_latency_impact` and `fig_packet_loss_impact` of results/generate_figures.py: the points of their
-- lines. `none` is an exception. A time is in milliseconds; the figures divide it by 1000.
pub mod Laws
use autonat_project.Base.{
  ℕ, String, Bool, Option, none, some, List, [], ◌∷◌, map, if◌then◌else◌, ◌>>=◌,
}
use autonat_project.Base.Dict.{Dict, lookup}
use autonat_project.Json.{Json, Python, truthy}
use autonat_project.Trace.Attrs.{traverse}
use autonat_project.Figures.{parse_spans, first_convergence_ms}
use autonat_project.Figures.Conditions.{
  Condition, baseline, loss_pct, latency_ms, condition_file, condition_dir, Directories, nat_rows,
}

-- A place on the axis with the condition that is measured there.
abbrev pub Place : Type 0
Place = ℕ × Condition

abbrev pub latencies : List Place
latencies = (10, baseline) ∷ (200, latency_ms "200") ∷ (500, latency_ms "500") ∷ []

abbrev pub losses : List Place
losses = (0, baseline) ∷ (1, loss_pct "1") ∷ (5, loss_pct "5") ∷ (10, loss_pct "10") ∷ []

-- `ms / 1000 if ms else None`
abbrev if_truthy : Option Json → Option Json
if_truthy none = none
if_truthy (some ms) = if truthy ms then some ms else none

-- The places of the values that there are, and these values.
unfoldable pub plot_places {ℓ} : {V : Type ℓ} → List ℕ → List (Option V) → List ℕ
plot_places (l ∷ places) (some v ∷ vals) = l ∷ plot_places places vals
plot_places (l ∷ places) (none ∷ vals) = plot_places places vals
plot_places _ _ = []

unfoldable pub plot_vals {ℓ} : {V : Type ℓ} → List (Option V) → List V
plot_vals [] = []
plot_vals (some v ∷ vals) = v ∷ plot_vals vals
plot_vals (none ∷ vals) = plot_vals vals

pub record Line : Type 0 where
  pub nat : String
  pub places : List ℕ
  pub vals : List Json

module _ (py : Python) (to_float : Json → Option Json) (less : Json → Json → Bool)
    (dirs : Directories) where
  -- An entry of `vals`.
  unfoldable pub impact_value : String → String → Condition → Option (Option Json)
  unfolding condition_file
  impact_value transport nat cond =
      elim (lookup (condition_file cond nat transport) (condition_dir cond dirs)) [
        | none ↦ some none
        | some lines ↦ (do
          spans ← parse_spans py to_float lines
          some (if_truthy (first_convergence_ms py to_float less spans)))
      ]

  unfoldable pub impact_line : List Place → String → String → Option Line
  unfolding impact_value traverse plot_places plot_vals
  impact_line axis transport nat = do
    vals ← traverse (λ (p : Place). impact_value transport nat p.1) axis
    some (record {
      nat = nat;
      places = plot_places (map (λ (p : Place). p.0) axis) vals;
      vals = plot_vals vals;
    })

  -- The lines of a figure, for each transport.
  unfoldable pub impact_lines : List Place → Option (List (List Line))
  unfolding impact_line traverse
  impact_lines axis =
      traverse (λ transport. traverse (impact_line axis transport) nat_rows) ("tcp" ∷ "quic" ∷ [])
