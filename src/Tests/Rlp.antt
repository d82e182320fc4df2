-- ===== src/Tests/Rlp.antt =====
-- Runs of the RLP handler's theorems.
use naia_relay.Prelude.{
  ◌+◌, length, if◌then◌else◌, ◌≡◌, ◌≢◌, refl, String, List, [], ◌∷◌, none, some, false, true, inl,
  arith, eq_iff,
}
use naia_relay.Prelude.Dict.{lookup, contains, insert, values}
use naia_relay.Json.{Object, empty, object, array, nat}
use naia_relay.Call.{ok}
use naia_relay.Pydantic.{valid}
use naia_relay.Registry.Models.{authoritative}
use naia_relay.Registry.Store.{
  RegistryStore, new_registry, get_tool, get_resource, get_prompt, register_tool, deregister_tool,
  mark_stale, bump_revision, snapshot,
}
use naia_relay.Registry.Mutation.{apply, accepts, add_tool, drop_tool}
use naia_relay.Registry.Invariant.{IsValid, new_registry-IsValid, apply-IsValid}
use naia_relay.Registry.Refinement.{view}
use naia_relay.Tep.Handler.{tool_of}
use naia_relay.Rlp.Models as Payload
use naia_relay.Rlp.Models.{Models, RlpEnvelope, SnapshotPayload, BindSessionPayload, load}
use naia_relay.Rlp.Response.{Identity, ok_response, error_response}
use naia_relay.Rlp.Serialize.{build_snapshot_details}
use naia_relay.Rlp.Handler.{
  Handling, Callbacks, contains as holds, new_handler, incremental, upsert_tool, check_envelope,
  validate_message,
}
use naia_relay.Rlp.Dispatch.{Ids, bind_session, dispatch, handle_message}
use naia_relay.Rlp.Incremental.{gap_response, update_then_gap, early_event_forgotten}
use naia_relay.Rlp.Following.{
  Event, tool_added, tool_removed, Follows, mirror_after, host_after, mirror_after-Follows,
}
use naia_relay.Rlp.Binding.{MayBind, bind_session-bound, bind_session-refused}
use naia_relay.Rlp.Details.{Lists}
use naia_relay.Rlp.Mirror.{Describes, snapshot-Follows}
use naia_relay.Rlp.Correlation.{Replies, handle_message-Replies}
use naia_relay.Tests.Samples.{python, refuse_all, echo, echo_payload, host, mirror}

abbrev self : Identity
self = record { host_relay_id = "relay1"; relay_session_id = "s1" }

abbrev pub envelope : String → RlpEnvelope
envelope kind = record {
  protocol = "rlp";
  version = "1.0";
  message_type = kind;
  message_id = "m1";
  relay_session_id = some "s1";
  source_relay_id = some "client1";
  target_relay_id = none;
  request_id = none;
  execution_id = none;
  payload = empty;
}

abbrev pub ids : Ids
ids = record { response = "r1"; gap = "g1" }

abbrev pub callbacks : Callbacks Unit
callbacks = record { execute_tool = none; read_resource = none; get_prompt = none }

abbrev state : Handling Unit
state = record { registry = mirror; handler = new_handler "relay1" "s1"; world = tt }

abbrev fresh : RegistryStore
fresh = new_registry authoritative

abbrev events : List Event
events = tool_added echo_payload ∷ tool_removed "echo" ∷ []

start : Follows mirror fresh
unfolding view get_tool get_resource get_prompt lookup
start = record { fresh = refl; same = refl }

added : accepts (add_tool (tool_of none echo_payload)) fresh ≡ true
unfolding accepts get_tool lookup
added = refl

removed : accepts (drop_tool "echo") (apply (add_tool (tool_of none echo_payload)) fresh).1 ≡ true
unfolding accepts apply register_tool contains insert get_tool lookup bump_revision tool_of
removed = refl

mirror_after-Follows_example :
    Follows
      (mirror_after "m1" "g1" self (envelope "tool_added") none events fresh mirror)
      (host_after "m1" "g1" self (envelope "tool_added") none events fresh)
mirror_after-Follows_example =
    mirror_after-Follows "m1" "g1" self (envelope "tool_added") none events start
      (added, (removed, tt))

known : get_tool "echo" host ≢ none
unfolding get_tool lookup
known = ground arith

update_then_gap_example :
    let s' =
      (incremental "m1" "g1" self (envelope "tool_updated") 2 (upsert_tool echo_payload) host).1 in
    incremental "m1" "g1" self (envelope "tool_updated") 3 (deregister_tool "echo") s'
    ≡ (ok (gap_response "m1" "g1" self 4 3), mark_stale s')
update_then_gap_example =
    update_then_gap "m1" "g1" self (envelope "tool_updated") echo_payload (deregister_tool "echo")
      host known

early_event_forgotten_example :
    let s' =
      (incremental "m1" "g1" self (envelope "tool_added") 2 (deregister_tool "echo") mirror).1 in
    (s'.stale ≡ true)
    × (incremental "m1" "g1" self (envelope "tool_added") 1 (upsert_tool echo_payload) s'
        ≡ incremental "m1" "g1" self (envelope "tool_added") 1 (upsert_tool echo_payload) mirror)
early_event_forgotten_example =
    early_event_forgotten "m1" "g1" self (envelope "tool_added") (deregister_tool "echo")
      (upsert_tool echo_payload) mirror

abbrev pub bind : String → BindSessionPayload
bind session = record {
  relay_session_id = session;
  session_token = none;
  client_instance_id = "client1";
}

abbrev nothing_registered : Object
nothing_registered = object (
    ("registry_revision", nat 0)
    ∷ ("tools", array [])
    ∷ ("resources", array [])
    ∷ ("prompts", array [])
    ∷ [])

built : build_snapshot_details mirror ≡ ok nothing_registered
unfolding build_snapshot_details snapshot values
built = refl

bind_session-bound_example :
    let (r, s') = bind_session callbacks python ids (envelope "bind_session") (bind "s1") state in
    let old = state.handler.bound_clients in
    (r ≡ ok (ok_response "r1" self (envelope "bind_session") nothing_registered))
    × Lists mirror nothing_registered
    × (holds "client1" s'.handler.bound_clients ≡ true)
    × (length s'.handler.bound_clients
        ≡ (if holds "client1" old then length old else length old + 1))
    × (record s' { handler = record s'.handler { bound_clients = old } } ≡ state)
bind_session-bound_example =
    bind_session-bound callbacks python ids (envelope "bind_session") (bind "s1") state
      (record { session = refl; token = inl refl }) built

stranger : ¬ MayBind state.handler (bind "s2")
stranger may = ground (arith, (eq_iff "s2" "s1").1 may.session)

bind_session-refused_example :
    bind_session callbacks python ids (envelope "bind_session") (bind "s2") state
    ≡ (ok (error_response "r1" self (envelope "bind_session") "unknown_session" "s2" empty), state)
bind_session-refused_example =
    bind_session-refused callbacks python ids (envelope "bind_session") (bind "s2") state stranger

abbrev pub one_tool : SnapshotPayload
one_tool = record { registry_revision = 1; tools = echo_payload ∷ []; resources = []; prompts = [] }

pub host-IsValid : IsValid host
unfolding apply register_tool contains insert bump_revision lookup
host-IsValid = apply-IsValid (add_tool echo) (new_registry-IsValid authoritative)

pub described : Describes one_tool host
unfolding tool_of values
described = record { revision = refl; tools = refl; resources = refl; prompts = refl }

snapshot-Follows_example :
    let (r, s') =
      dispatch callbacks python ids (envelope "tool_snapshot") (Payload.snapshot one_tool) state in
    (r ≡ ok (ok_response "r1" self (envelope "tool_snapshot") empty)) × Follows s'.registry host
snapshot-Follows_example =
    snapshot-Follows callbacks python ids (envelope "tool_snapshot") one_tool state host-IsValid
      refl described

abbrev execution : Payload.ExecuteToolPayload
execution = record { tool_name = "echo"; arguments = empty; context = empty; stream = false }

abbrev pub models : String → Models
models kind = record {
  envelope = λ o. valid (envelope kind);
  hello = refuse_all;
  bind_session = refuse_all;
  snapshot = λ o. valid one_tool;
  tool_mutation = refuse_all;
  tool_removed = refuse_all;
  resource_mutation = refuse_all;
  resource_removed = refuse_all;
  prompt_mutation = refuse_all;
  prompt_removed = refuse_all;
  read_resource = refuse_all;
  resource_result = refuse_all;
  get_prompt = refuse_all;
  prompt_result = refuse_all;
  execute_tool = refuse_all;
  execution_progress = refuse_all;
  execution_result = refuse_all;
  execution_error = refuse_all;
  heartbeat = λ o. valid (record { timestamp = "now" });
  disconnect = refuse_all;
}

heartbeat_answered :
    (handle_message callbacks python ids (models "heartbeat") empty state).0
    ≡ ok (ok_response "r1" self (envelope "heartbeat") empty)
unfolding handle_message validate_message check_envelope load dispatch
heartbeat_answered = refl

handle_message-Replies_example :
    (e : RlpEnvelope) × (validate_message (models "heartbeat") empty ≡ ok e)
    × Replies "g1" self e (ok_response "r1" self (envelope "heartbeat") empty)
handle_message-Replies_example =
    handle_message-Replies callbacks python ids (models "heartbeat") empty state heartbeat_answered
