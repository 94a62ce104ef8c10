-- ===== src/Scenario.antt =====
-- testbed/run.py: scenarios, their expansion, validation and filtering, and what they select.
pub mod Defs
pub mod Filter
pub mod Schema
pub mod Expand
pub mod Validate
pub mod Profiles
pub mod Environment
pub mod Label
