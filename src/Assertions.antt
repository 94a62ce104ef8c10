-- ===== src/Assertions.antt =====
-- testbed/eval-assertions.py: the events of a trace, and the assertions about them.
pub mod Load
pub mod Attributes
pub mod Agreement
pub mod Evaluate
pub mod Program
pub mod Laws
