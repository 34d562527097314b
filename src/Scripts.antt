-- ===== src/Scripts.antt =====
-- scripts/: the script that takes one issue through the graph, and the scripts that check the program.
pub mod Checks
pub mod RunRealIssue
pub mod SmokeMock
pub mod MockPath
pub mod SmokeReal
pub mod SmokePassed
pub mod Escalation
pub mod ExecutorLoop
pub mod Report
pub mod FileOps
pub mod ValidationGit
