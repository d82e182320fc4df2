-- ===== src/Runtime/Host.antt =====
-- src/naia_relay/runtime/relay.py: HostRelayRuntime, which serves its registry to client relays and
-- forwards their executions to an attached executor. `P` is the executor's side of the transport.
pub mod Callbacks
pub mod Stdio
pub mod Exchange
pub mod Kept
pub mod Resuming
pub mod Settled
pub mod Waking
use Prim.Native.String.{◌++◌ as ◌<>◌}
use naia_relay.Prelude.{
  ℕ, String, Bool, true, false, Option, none, some, List, [], ◌∷◌, if◌then◌else◌, eqb, ◌++◌,
}
use naia_relay.Prelude.Dict.{Dict, lookup, insert, erase}
use naia_relay.Prelude.Dict.Maps.{map_values}
use naia_relay.Json.{Value, Object, object, array, str, dict, bool, null, empty}
use naia_relay.Errors.{Exn, protocol_error, Interpreter}
use naia_relay.Call.{
  Call, Result, ok, raised, pure, raise, lift, gets, modify, finally, zoom, ◌>>=◌, ◌>>◌,
}
use naia_relay.Registry.Models.{authoritative}
use naia_relay.Registry.Store.{RegistryStore, new_registry}
use naia_relay.Tep.Models as TepModels
use naia_relay.Tep.Handler as Tep
use naia_relay.Tep.Handler.{TepHandler}
use naia_relay.Rlp.Models.{ExecuteToolPayload, ReadResourcePayload, GetPromptPayload, Models}
use naia_relay.Rlp.Handler as Rlp
use naia_relay.Rlp.Handler.{RlpHandler, bound_client_count}
use naia_relay.Rlp.Dispatch as Rlp_dispatch
use naia_relay.Rlp.Dispatch.{Ids}
use naia_relay.Runtime.Base.{BaseRuntime, RuntimeStats}
use naia_relay.Runtime.Serve.{Holds, with_request_timeout}
use naia_relay.Runtime.Serve as Serve
use naia_relay.Runtime.Direct.{echoed, user_message, tep_callbacks}

-- An asyncio future: not done, or done with a result or an exception.
pub data Future : Type 0 where
  waiting : Future
  settled : Result Value → Future

-- An adapter is known by a number, so that `is` can compare two of them.
pub record HostRuntime (P : Type 0) : Type 0 where
  pub base : BaseRuntime
  pub registry : RegistryStore
  pub tep_handler : TepHandler
  pub rlp_handler : RlpHandler
  pub executor_transport : Option ℕ
  pub pending_requests : Dict Future
  pub pending_executions : Dict Future
  pub executor : P

-- HostRelayRuntime and __post_init__
abbrev pub new_host : {P : Type 0} → BaseRuntime → P → HostRuntime P
new_host base executor = record {
  base = base;
  registry = new_registry authoritative;
  tep_handler = Tep.new_handler;
  rlp_handler = Rlp.new_handler base.relay_id base.session_id;
  executor_transport = none;
  pending_requests = [];
  pending_executions = [];
  executor = executor;
}

abbrev pub host_holds : {P : Type 0} → Holds (HostRuntime P)
host_holds = record { base = λ s. s.base; update = λ f s. record s { base = f s.base } }

-- ProtocolError(message, code=code)
abbrev failure : String → String → Exn
failure message code =
    protocol_error (record { message = message; code = code; error_data = dict empty })

-- not future.done(): a future that is done stays as it is.
abbrev pub settle_one : Result Value → Future → Future
settle_one r waiting = settled r
settle_one r (settled r') = settled r'

-- The future under an id, if there is one and it is not done, gets its result or its exception.
unfoldable pub settle : String → Result Value → Dict Future → Dict Future
unfolding lookup insert
settle id r d = elim (lookup id d) [ some waiting ↦ insert id (settled r) d | _ ↦ d ]

abbrev pub disconnected : Exn
disconnected = failure "Executor transport disconnected" "executor_disconnected"

-- adapter is None or self._executor_transport is adapter
abbrev pub detaches : Option ℕ → Option ℕ → Bool
detaches none attached = true
detaches (some a) none = false
detaches (some a) (some b) = eqb b a

module _ {P : Type 0} where
  unfoldable pub attach_executor_transport : ℕ → HostRuntime P → HostRuntime P
  attach_executor_transport adapter s = record s { executor_transport = some adapter }

  unfoldable pub fail_pending_executor_operations : Exn → HostRuntime P → HostRuntime P
  unfolding map_values
  fail_pending_executor_operations e s = record s {
    pending_requests = map_values (settle_one (raised e)) s.pending_requests;
    pending_executions = map_values (settle_one (raised e)) s.pending_executions;
  }

  unfoldable pub detach_executor_transport : Option ℕ → HostRuntime P → HostRuntime P
  unfolding fail_pending_executor_operations
  detach_executor_transport adapter s =
      if detaches adapter s.executor_transport
      then fail_pending_executor_operations disconnected (record s { executor_transport = none })
      else s

  -- HostRelayRuntime.stop, before it stops the base runtime.
  unfoldable pub drop_transport : HostRuntime P → HostRuntime P
  drop_transport s = record s { executor_transport = none }

module _ {P : Type 0} (python : Interpreter) where
  abbrev pub on_tep : {A : Type 0} → Call (Tep.Handling Unit) A → Call (HostRuntime P) A
  on_tep =
      zoom (λ s. record { registry = s.registry; handler = s.tep_handler; world = tt })
        (λ h s. record s { registry = h.registry; tep_handler = h.handler })

  -- HostRelayRuntime.handle_tep_message
  unfoldable pub handle_tep_message :
      TepModels.Models
      → String
      → ℕ
      → Option (HostRuntime P → HostRuntime P)
      → Object
      → Call (HostRuntime P) Object
  handle_tep_message models mid now expiry =
      Serve.handle_message host_holds now expiry
        (λ message. on_tep (Tep.handle_message (tep_callbacks python) mid models message))

  -- HostRelayRuntime.handle_rlp_message, with callbacks that act on the executor's side.
  unfoldable pub handle_rlp_message :
      Rlp.Callbacks P
      → Models
      → Ids
      → ℕ
      → Option (HostRuntime P → HostRuntime P)
      → Object
      → Call (HostRuntime P) Object
  unfolding bound_client_count
  handle_rlp_message callbacks models ids now expiry message = do
    response ←
        Serve.handle_message host_holds now expiry
          (λ message.
            zoom
              (λ s. record { registry = s.registry; handler = s.rlp_handler; world = s.executor })
              (λ h s. record s {
                registry = h.registry;
                rlp_handler = h.handler;
                executor = h.world;
              })
              (Rlp_dispatch.handle_message callbacks python ids models message))
          message
    modify (λ s. record s {
      base = record s.base {
        stats = record s.base.stats { attached_clients = bound_client_count s.rlp_handler };
      };
    })
    pure response
