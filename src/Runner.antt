-- ===== src/Runner.antt =====
-- The Jaeger client, the waits and the toggles of testbed/run.py.
pub mod Waits
pub mod Toggles
pub mod Jaeger
pub mod Evaluation
pub mod Run
pub mod Main
pub mod Effects
pub mod Compose
pub mod Ready
pub mod Query
pub mod DryRun
pub mod Reading
