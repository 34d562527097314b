-- ===== src/Nodes.antt =====
-- syndicate/nodes.py: the nodes of the graph and its routers, a module for each.
pub mod Config
pub mod Shell
pub mod Tools
pub mod Loop
pub mod Executor
pub mod Diagnosis
pub mod Validator
pub mod Oversight
pub mod Ledger
pub mod Ask
pub mod Analyzer
pub mod Architect
pub mod Writes
pub mod Logs
pub mod Calls
pub mod Transcript
pub mod Beside
pub mod Script
pub mod Executed
