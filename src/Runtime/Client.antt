-- ===== src/Runtime/Client.antt =====
-- src/naia_relay/runtime/relay.py: ClientRelayRuntime, which mirrors the registry of a host relay
-- and forwards executions to it. A requester sends one RLP message to the peer `P` and gets its
-- response: what is behind it, a socket or a host in the same process, is no part of the client.
use Prim.Native.String.{◌++◌ as ◌<>◌}
use naia_relay.Prelude.{ℕ, String, Option, none, some}
use naia_relay.Json.{Value, Object, dict, get, empty}
use naia_relay.Errors.{Exn, protocol_error, key_error, other_error, Interpreter}
use naia_relay.Call.{Call, Result, ok, raised, zoom}
use naia_relay.Registry.Models.{mirrored}
use naia_relay.Registry.Store.{RegistryStore, new_registry, mark_stale}
use naia_relay.Runtime.Base.{BaseRuntime, RuntimeStats, record_disconnect}
use naia_relay.Runtime.Serve.{Holds}
use naia_relay.Runtime.Serve as Serve
use naia_relay.Mcp.Handler.{McpHandler}
use naia_relay.Rlp.Models.{Models}
use naia_relay.Rlp.Handler as Rlp
use naia_relay.Rlp.Handler.{RlpHandler}
use naia_relay.Rlp.Dispatch as Rlp_dispatch
use naia_relay.Rlp.Dispatch.{Ids}

abbrev pub Requester : Type 0 → Type 0
Requester P = Object → Call P Object

-- What the MCP callbacks reach.
pub record Link (P : Type 0) : Type 0 where
  pub base : BaseRuntime
  pub registry : RegistryStore
  pub rlp_handler : RlpHandler
  pub upstream_requester : Option (Requester P)
  pub peer : P

pub record ClientRuntime (P : Type 0) : Type 0 where
  pub link : Link P
  pub mcp_handler : McpHandler

-- ClientRelayRuntime and __post_init__
abbrev pub new_link : {P : Type 0} → BaseRuntime → P → Link P
new_link base peer = record {
  base = base;
  registry = new_registry mirrored;
  rlp_handler = Rlp.new_handler "upstream_host" base.session_id;
  upstream_requester = none;
  peer = peer;
}

abbrev pub link_holds : {P : Type 0} → Holds (Link P)
link_holds = record { base = λ s. s.base; update = λ f s. record s { base = f s.base } }

module _ {P : Type 0} where
  abbrev pub count : (RuntimeStats → RuntimeStats) → Link P → Link P
  count f s = record s { base = record s.base { stats = f s.base.stats } }

  -- ClientRelayRuntime.mark_stale; the handler's mark_stale marks the same registry.
  unfoldable pub mark_link_stale : Link P → Link P
  unfolding mark_stale
  mark_link_stale s = record s { registry = mark_stale (mark_stale s.registry) }

  unfoldable pub on_rlp_disconnect : Link P → Link P
  unfolding mark_link_stale record_disconnect
  on_rlp_disconnect s =
      let s' = mark_link_stale s in
      record s' { upstream_requester = none; base = record_disconnect s'.base }

  abbrev pub on_peer : {A : Type 0} → Call P A → Call (Link P) A
  on_peer = zoom (λ s. s.peer) (λ w s. record s { peer = w })

-- value[key]
abbrev pub at : Interpreter → String → Value → Result Value
at python key (dict o) = elim (get key o) [ none ↦ raised (key_error key) | some v ↦ ok v ]
at python key v = raised (other_error "TypeError" (python.type_error "subscript" v))

-- ProtocolError(message, code=code)
abbrev pub failure : String → String → Exn
failure message code =
    protocol_error (record { message = message; code = code; error_data = dict empty })

-- The refusal that the three callbacks start with.
abbrev pub stale_registry : String → Exn
stale_registry before =
    failure ("Client relay registry is stale; resync required before " <> before) "stale_registry"

abbrev pub no_callbacks : Rlp.Callbacks Unit
no_callbacks = record { execute_tool = none; read_resource = none; get_prompt = none }

-- A call of the RLP handler, on the registry that it shares with the client.
abbrev pub on_rlp : {P A : Type 0} → Call (Rlp.Handling Unit) A → Call (Link P) A
on_rlp =
    zoom (λ s. record { registry = s.registry; handler = s.rlp_handler; world = tt })
      (λ h s. record s { registry = h.registry; rlp_handler = h.handler })

module _ {P : Type 0} (python : Interpreter) (models : Models) (ids : Ids) where
  abbrev pub rlp_call : Object → Call (Link P) Object
  rlp_call message = on_rlp (Rlp_dispatch.handle_message no_callbacks python ids models message)

  -- ClientRelayRuntime.handle_rlp_message
  unfoldable pub handle_rlp_message : ℕ → Option (Link P → Link P) → Object → Call (Link P) Object
  handle_rlp_message now expiry = Serve.handle_message link_holds now expiry rlp_call
