-- ===== src/Metrics.antt =====
-- The metrics of testbed/analyze.py over parsed traces.
pub mod Events
pub mod Rates
pub mod Stats
pub mod Confidence
pub mod Update
pub mod Overhead
pub mod Request
pub mod Options
pub mod Report
