-- ===== src/Tests.antt =====
-- Runs of the definitions, and the theorems at concrete inputs.
mod Fixtures
mod Traces
mod Metrics
mod Assertions
mod Scenarios
mod Waits
mod Runs
mod Programs
mod Jaeger
mod Documents
mod Figures
mod Reports
mod Nebula
mod Drawings
mod Agreement
mod Pictures
