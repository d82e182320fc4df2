-- ===== src/Mcp.antt =====
-- src/naia_relay/protocols/mcp: the server side of the Model Context Protocol.
pub mod Response
pub mod Handler
pub mod Answers
pub mod Keeps
