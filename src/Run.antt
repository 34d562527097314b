-- ===== src/Run.antt =====
-- Runs of the graph that `build_graph` of syndicate/nodes.py describes.
pub mod Terminates
pub mod Calls
pub mod Honest
pub mod Landed
pub mod Outcome
pub mod Validated
