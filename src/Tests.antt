-- ===== src/Tests.antt =====
-- The theorems at concrete inputs: a small sandbox with a repository, and a model that ends at once.
mod World
mod Runs
mod Replay
mod Escalation
mod Smoke
mod Returns
mod Step
mod Server
mod Sandbox
mod Watch
mod Redaction
mod Listing
mod Scripts
mod Rounds
mod Architect
mod Factory
mod Texts
mod Stubs
mod Oversight
