-- ===== src/Server.antt =====
-- server/: the service that drives runs and streams their events.
pub mod Value
pub mod Events
pub mod Registry
pub mod Backlog
pub mod Attempts
pub mod Progress
pub mod Strikes
pub mod Rounds
pub mod Runner
pub mod Driven
pub mod Sent
pub mod Count
pub mod Steps
pub mod Redaction
pub mod Whole
pub mod Follow
pub mod Watched
pub mod Reconnect
pub mod Status
pub mod App
pub mod Cursor
pub mod OneActive
pub mod Release
pub mod Listing
pub mod Service
pub mod Frames
