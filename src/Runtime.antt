-- ===== src/Runtime.antt =====
-- src/naia_relay/runtime/relay.py: the runtimes that own the registry and the protocol handlers.
pub mod Base
pub mod Guard
pub mod InFlight
pub mod Serve
pub mod Direct
pub mod Undisturbed
pub mod Client
pub mod Forward
pub mod Bind
pub mod Silent
pub mod Retries
pub mod Stale
pub mod Freshness
pub mod Disconnected
pub mod Forwarded
pub mod RoundTrip
pub mod Host
pub mod Serving
pub mod Answering
pub mod Loading
pub mod Bound
pub mod AutoBind
