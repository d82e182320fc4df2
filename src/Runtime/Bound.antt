-- ===== src/Runtime/Bound.antt =====
-- src/naia_relay/runtime/relay.py: ClientRelayRuntime.bind_to_host, a client and its host in one
-- process. The client's requester is the host's handle_rlp_message.
use naia_relay.Prelude.{ℕ, none, some}
use naia_relay.Json.{Object}
use naia_relay.Errors.{Interpreter}
use naia_relay.Call.{Call}
use naia_relay.Registry.Store.{mark_stale}
use naia_relay.Rlp.Models.{Models}
use naia_relay.Rlp.Models as Payload
use naia_relay.Rlp.Handler.{Callbacks}
use naia_relay.Rlp.Dispatch.{Ids}
use naia_relay.Runtime.Client.{Link, Requester}
use naia_relay.Runtime.Bind.{Surroundings, bind_via_requester}
use naia_relay.Runtime.Host.{HostRuntime, handle_rlp_message}

module _ {P : Type 0} (python : Interpreter) (models : Models) (ids : Ids)
    (around : Surroundings (HostRuntime P)) (callbacks : Callbacks P) (host_models : Models)
    (host_ids : Ids) (host_now : ℕ) where
  abbrev pub host_requester : Requester (HostRuntime P)
  host_requester = handle_rlp_message python callbacks host_models host_ids host_now none

  -- The client when a bind begins.
  abbrev binding : Link (HostRuntime P) → Link (HostRuntime P)
  binding s = record s {
    upstream_requester = some host_requester;
    rlp_handler = record s.rlp_handler {
      host_relay_id = s.peer.base.relay_id;
      relay_session_id = s.peer.base.session_id;
    };
    registry = mark_stale s.registry;
  }

  unfoldable pub bind_to_host : Call (Link (HostRuntime P)) Object
  unfolding bind_via_requester handle_rlp_message
  bind_to_host s =
      bind_via_requester python models ids around host_requester s.peer.base.session_id
        s.peer.base.relay_id s
