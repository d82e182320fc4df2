-- ===== src/Tests.antt =====
-- Concrete runs of the theorems, and the sample data that they share.
pub mod Samples
mod Registry
mod Tep
mod Host
mod Rlp
mod Mcp
mod Runtime
mod Forwarded
mod Bound
mod Config
mod Framing
