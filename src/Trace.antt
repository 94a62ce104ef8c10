-- ===== src/Trace.antt =====
-- `parse_trace` of testbed/analyze.py: a JSONL file of spans is read into a session, its refresh
-- cycles, probes and server selections. `none` is an exception that leaves the function.
pub mod Attrs
pub mod Parse
pub mod Views
