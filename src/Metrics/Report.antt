-- ===== src/Metrics/Report.antt =====
-- `format_text` of testbed/analyze.py: the report on the results of the metrics. Floats are a
-- parameter.
pub mod Lines
pub mod Program
pub mod Laws
use autonat_project.Base.{ℕ, ◌*◌, String, ◌<>◌, Bool, Option, none, some, if◌then◌else◌}
use autonat_project.Base.Int.{ℤ, pos, negsuc}
use autonat_project.Base.Show.{show}
use autonat_project.Json.{Json}
use autonat_project.Metrics.Rates.{Ratio, Rate}
use autonat_project.Metrics.Confidence.{Confidence}
use autonat_project.Metrics.Update.{Update}
use autonat_project.Metrics.Overhead.Total.{Overhead}

-- What the report uses of Python's numbers: the means and medians are integers or floats.
pub record Numbers : Type 1 where
  pub Number : Type 0
  -- The number of an integer.
  pub of_int : ℤ → Number
  -- The number of a mean or a median.
  pub of_json : Json → Number
  -- `f"{v}"`
  pub text : Number → String
  -- `float(v)`
  pub to_float : Number → Number
  -- `v >= k`
  pub at_least : Number → ℕ → Bool
  -- `f"{v / k:.1f}"`
  pub scaled : Number → ℕ → String
  -- `int(v)`
  pub trunc : Number → ℤ
  -- `f"{rate * 100:.2f}%"` and `f"{round(pct, 1)}"`
  pub percent_text : Ratio → String
  pub pct_text : Ratio → String

-- What one of the functions of METRIC_FUNCS returns, by its field "metric".
pub data Result : Type 0 where
  false_negative_rate : Rate → Result
  false_positive_rate : Rate → Result
  time_to_confidence : Confidence → Result
  time_to_update : Update → Result
  protocol_overhead : Overhead → Result

-- `_ms` of an integer
unfoldable pub ms : ℤ → String
unfolding show
ms v = show v <> "ms"

module _ (num : Numbers) where
  open num use {Number, text, to_float, at_least, scaled, trunc}

  -- `_ms` of a mean or a median
  abbrev pub ms_num : Number → String
  ms_num v = text v <> "ms"

  bytes_float : Number → String
  bytes_float v =
      if at_least v 1000000
      then scaled v 1000000 <> "MB"
      else if at_least v 1000
      then scaled v 1000 <> "KB"
      else show (trunc v) <> "B"

  -- `_bytes` of a number
  unfoldable pub bytes : Number → String
  unfolding bytes_float
  bytes v = bytes_float (to_float v)
