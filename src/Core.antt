-- ===== src/Core.antt =====
-- src/naia_relay/core: the sessions of a runtime, and the trackers of requests and executions.
pub mod Sessions
pub mod Tracking
pub mod Balance
