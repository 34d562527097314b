-- ===== src/Runtime.antt =====
-- syndicate/runtime
pub mod Base
pub mod Replace
pub mod Mock
pub mod OpenHands
pub mod Agrees
pub mod Factory
