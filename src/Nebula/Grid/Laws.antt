-- ===== src/Nebula/Grid/Laws.antt =====
-- What `chart_dialability_vs_public` draws at a place.
use autonat_project.Base.{ℕ, ◌≡◌, some}
use autonat_project.Base.Int.{ℤ}
use autonat_project.Nebula.Grid.{cell, log_value, HeatMap}
use autonat_project.Nebula.Grid.Texts.{text_at, shown}

module _ {F : Type 0} (log10 : ℤ → F) (nan : F) where
  -- What is drawn for a number at the place of two deciles.
  pub record IsDrawn (d p : ℕ) (v : ℤ) (m : HeatMap log10 nan) : Type 0 where
    pub number : cell m.grid d p ≡ some v
    pub colour : cell m.image p d ≡ some (log_value log10 nan v)
    pub text : text_at d p m.texts ≡ shown d p v
