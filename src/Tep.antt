-- ===== src/Tep.antt =====
-- src/naia_relay/protocols/tep: the protocol between a relay and its tool executor.
pub mod Models
pub mod Dump
pub mod Response
pub mod Handler
pub mod Loops
pub mod Registration
pub mod Correlation
pub mod Refusals
