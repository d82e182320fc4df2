-- ===== src/Rlp.antt =====
-- src/naia_relay/protocols/rlp: the protocol between a host relay and its client relays.
pub mod Models
pub mod Dump
pub mod Response
pub mod Serialize
pub mod Handler
pub mod Dispatch
pub mod Incremental
pub mod Following
pub mod Details
pub mod Listed
pub mod Binding
pub mod Mirror
pub mod Correlation
pub mod Excused
