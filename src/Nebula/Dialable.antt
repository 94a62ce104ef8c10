-- ===== src/Nebula/Dialable.antt =====
-- `chart_dialable_over_time` of results/nebula-analysis/plot.py
pub mod Laws
use autonat_project.Base.{
  ℕ, zero, suc, ◌-◌, ◌/◌, ltb, String, Option, none, some, List, [], ◌∷◌, length, if◌then◌else◌,
  ◌>>=◌,
}
use autonat_project.Base.Dict.{lookup}
use autonat_project.Nebula.{Row, column}
use autonat_project.Nebula.Protocols.{non_empty}
use autonat_project.Nebula.Versions.{Floats, float_field}

-- The items of a list from the one after `skip` others on, and from there every `suc gap`th.
unfoldable pub every {ℓ} : {A : Type ℓ} → ℕ → ℕ → List A → List A
every gap skip [] = []
every gap zero (x ∷ xs) = x ∷ every gap gap xs
every gap (suc skip) (x ∷ xs) = every gap skip xs

-- `max(1, n // 10)`
unfoldable pub step_of : ℕ → ℕ
step_of n = if ltb 1 (n / 10) then n / 10 else 1

-- `days[::step]`
unfoldable pub ticks : List String → List String
unfolding every step_of
ticks days = every (step_of (length days) - 1) 0 days

module _ (fl : Floats) where
  open fl use {Float}

  pub record DialableChart : Type 0 where
    pub days : List String
    pub crawled : List Float
    pub dialable : List Float
    pub pct : List Float
    pub xticks : List String

  unfoldable pub chart_dialable_over_time : List Row → Option DialableChart
  unfolding column float_field ticks
  chart_dialable_over_time rows = do
    days ← column (lookup "day") rows
    crawled ← column (float_field fl "avg_crawled") rows
    dialable ← column (float_field fl "avg_dialable") rows
    all_pct ← column (float_field fl "pct_dialable") rows
    pct ← non_empty all_pct
    some (record {
      days = days;
      crawled = crawled;
      dialable = dialable;
      pct = pct;
      xticks = ticks days;
    })
