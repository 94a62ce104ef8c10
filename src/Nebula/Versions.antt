-- ===== src/Nebula/Versions.antt =====
-- `chart_server_mode` and `chart_oscillation_refined` of results/nebula-analysis/plot.py, whose bars
-- stand for the versions of Kubo. Floats are a parameter.
pub mod Laws
use autonat_project.Base.{
  ℕ, ◌+◌, suc, String, ◌<>◌, Bool, Option, none, some, List, [], ◌∷◌, if◌then◌else◌, ◌>>=◌,
}
use autonat_project.Base.Int.{ℤ}
use autonat_project.Base.Show.{show}
use autonat_project.Base.Dict.{lookup}
use autonat_project.Nebula.{Row, int_field, column, index}
use autonat_project.Nebula.Protocols.{non_empty}

-- `float(s)`, `v > 0` and `f"{v:.1f}%"`
pub record Floats : Type 1 where
  pub Float : Type 0
  pub of_text : String → Option Float
  pub is_positive : Float → Bool
  pub percent_text : Float → String

-- The bar before which the line for version 0.34 is drawn, where there is one.
unfoldable pub v2_introduced : List String → Option ℕ
unfolding index
v2_introduced versions = index "0.34" versions

module _ (fl : Floats) where
  open fl use {Float, of_text, is_positive, percent_text}

  -- `float(r[key])`
  unfoldable pub float_field : String → Row → Option Float
  float_field key r = do v ← lookup key r; of_text v

  pub record ServerChart : Type 0 where
    pub versions : List String
    pub pct : List Float
    pub line_before : Option ℕ
    pub labels : List String

  unfoldable pub server_labels : List Float → List ℤ → List String
  unfolding show
  server_labels (p ∷ pct) (t ∷ totals) =
      (percent_text p <> "\nn=" <> show t) ∷ server_labels pct totals
  server_labels _ _ = []

  unfoldable pub chart_server_mode : List Row → Option ServerChart
  unfolding column float_field int_field v2_introduced server_labels
  chart_server_mode rows = do
    versions ← column (lookup "version") rows
    pct ← column (float_field "pct_server") rows
    totals ← column (int_field "total") rows
    some (record {
      versions = versions;
      pct = pct;
      line_before = v2_introduced versions;
      labels = server_labels pct totals;
    })

  pub record OscillationChart : Type 0 where
    pub versions : List String
    pub pct_kad : List Float
    pub pct_autonat : List Float
    pub line_before : Option ℕ
    -- The place of each text: above the second bar of a version, or below its bars.
    pub above : List (ℕ × String)
    pub below : List (ℕ × String)

  unfoldable pub texts_above : ℕ → List Float → List (ℕ × String)
  texts_above i [] = []
  texts_above i (pa ∷ pct) =
      let rest = texts_above (suc i) pct in
      if is_positive pa then (i, percent_text pa) ∷ rest else rest

  unfoldable pub texts_below : ℕ → List ℤ → List (ℕ × String)
  unfolding show
  texts_below i [] = []
  texts_below i (t ∷ totals) = (i, "n=" <> show t) ∷ texts_below (suc i) totals

  unfoldable pub chart_oscillation_refined : List Row → Option OscillationChart
  unfolding column float_field int_field v2_introduced texts_above texts_below
  chart_oscillation_refined rows = do
    versions ← column (lookup "version") rows
    kad ← column (float_field "pct_kad") rows
    autonat ← column (float_field "pct_autonat") rows
    totals ← column (int_field "total") rows
    pct_kad ← non_empty kad
    pct_autonat ← non_empty autonat
    some (record {
      versions = versions;
      pct_kad = pct_kad;
      pct_autonat = pct_autonat;
      line_before = v2_introduced versions;
      above = texts_above 0 pct_autonat;
      below = texts_below 0 totals;
    })
