-- ===== src/Lib.antt =====
-- naia-relay connects MCP clients to a tool executor, in one process (the direct runtime) or
-- across a relay link between a host, which owns the registry, and its clients, which mirror it.
-- This library models the registry, the three protocol handlers and the runtimes that call them.
--
-- * Registry   src/naia_relay/registry: Models has the definitions, Store the class RegistryStore.
-- *            A mutation is a call that returns the new revision or raises.
-- * Tep        src/naia_relay/protocols/tep: the executor's protocol. Models has the payloads and the
-- *            envelope, Handler the class TEPHandler with one branch for each message.
-- * Rlp        src/naia_relay/protocols/rlp: the relay link. Handler and Dispatch have RLPHandler,
-- *            Serialize the snapshot, Response the replies.
-- * Mcp        src/naia_relay/protocols/mcp: MCPHandler, one branch for each JSON-RPC method.
-- * Runtime    src/naia_relay/runtime/relay.py: Base is BaseRelayRuntime, Serve the message handlers
-- *            that the runtimes share, Direct is DirectRelayRuntime, Client, Forward, Bind, Bound
-- *            and AutoBind are ClientRelayRuntime. Host is HostRelayRuntime: its callbacks in
-- *            Host/Callbacks, what it hears from its executor in Host/Stdio, and the orders of these
-- *            in Host/Exchange.
-- *            Serving has the loops that serve a runtime. Guard and InFlight: the interleavings of
-- *            the tasks of one runtime.
-- * Core       src/naia_relay/core: Sessions has SessionManager, Tracking the two trackers.
-- * Config     src/naia_relay/config: Config and Parse have models.py, Loader has loader.py.
-- *            Startup has run_from_config of runtime/relay.py and main of cli.py, as sequences of
-- *            actions.
-- * Framing    src/naia_relay/transports/framing.py: LineJsonFramer, and in Headers and ContentLength
-- *            ContentLengthJsonFramer, over the json module and a stream of bytes.
-- * Prelude, Json, Errors, Call and Pydantic carry what these share: dictionaries, JSON values,
-- *            exceptions, calls that change a state and return or raise, validators.
-- * Tests      concrete runs of the theorems.
--
-- The TEP handler and the MCP handler act on one registry; the RLP handler serves it to clients
-- and applies the host's events to a mirror. A runtime guards each MCP request with its counters,
-- and a client runtime forwards executions to its host only while its mirror is fresh.
--
-- Revisions, counters and limits are naturals, as the code never lowers them below zero. The
-- payloads declare their revision as an int of either sign; a host counts from zero, and a
-- message with a negative revision is not modelled. A float is its literal. A deep copy is the
-- identity, since values of the model are not shared. A set of clients is a list with no
-- repetitions. Text of the interpreter, `str` of an exception or a value and the name of an
-- exception's class, is the parameter `Interpreter`, and so is what `dict` gives or raises of a
-- value that is no dict.
--
-- pydantic, the ids that the program draws, the clock, asyncio's deadlines and the peer of a link
-- are parameters. A deadline is an `expiry`: none if the awaited call ends in time, else what it
-- has done by then. The retry loop of a bind recurses on the number of its rounds, which is the
-- number of reconnects and one, as in the code's `range`.
--
-- A callback of the host that waits on its executor is two calls: one that begins it and one that
-- resumes it, once its future is settled or its deadline cuts the wait off. From Python 3.12 on a
-- deadline may cut off the wait on a future that is settled too, so both are modelled as possible
-- there. The sending of its message is not split. A new id is free in its table.
--
-- A serving loop runs on the list of the messages that its transport receives before it raises;
-- each comes with what other tasks did to the runtime meanwhile. The header loop of a framer runs
-- on fuel: as many rounds as the stream has bytes, and one, are enough, since each round reads a
-- line that is not empty.
--
-- Not modelled: the opening of sockets and HTTP servers, the transports, the writing of the
-- readiness file, argument parsing and logging. They are input and output only.
pub mod Prelude
pub mod Framing
pub mod Json
pub mod Errors
pub mod Call
pub mod Config
pub mod Core
pub mod Registry
pub mod Pydantic
pub mod Tep
pub mod Rlp
pub mod Mcp
pub mod Runtime
pub mod Tests
