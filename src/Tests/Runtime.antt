-- ===== src/Tests/Runtime.antt =====
-- Runs of the runtimes' theorems.
use naia_relay.Prelude.{
  String, ◌≡◌, refl, ◌⊎◌, ap, sym, ℕ, ◌+◌, ◌≤◌, ◌<◌, Option, none, some, true, List, [], ◌∷◌,
}
use naia_relay.Json.{Value, Object, object, get, str, dict, empty}
use naia_relay.Errors.{other_error, protocol_error}
use naia_relay.Call.{ok, raised}
use naia_relay.Pydantic.{Checked, valid, invalid}
use naia_relay.Mcp.Response.{JsonRpcRequest}
use naia_relay.Rlp.Models.{Models, RlpEnvelope, SnapshotPayload}
use naia_relay.Runtime.Base.{
  BaseRuntime, Limits, new_runtime, guard_request, too_many_requests, queue_too_deep,
}
use naia_relay.Runtime.InFlight.{
  Server, Run, idle, arrived, done, more, IsBalanced, reachable-IsBalanced, admission, counted,
}
use naia_relay.Runtime.Direct.{DirectRuntime, new_direct, handle_mcp_message}
use naia_relay.Runtime.Undisturbed.{Undisturbed, handle_mcp_message-Undisturbed}
use naia_relay.Runtime.Client.{Link, Requester, new_link, stale_registry, on_rlp_disconnect}
use naia_relay.Runtime.Bind.{Surroundings, bind_via_requester, status_of}
use naia_relay.Runtime.Retries.{bind_via_requester-attempts}
use naia_relay.Rlp.Response.{Identity, error_response}
use naia_relay.Runtime.RoundTrip.{errors_roundtrip}
use naia_relay.Runtime.Forward.{tool_answer, item_answer}
use naia_relay.Runtime.Stale.{KeepsType}
use naia_relay.Runtime.Freshness.{Settled, bind_via_requester-Settled}
use naia_relay.Runtime.Disconnected.{
  disconnected_forwards_nothing, Forwarded, calls, reads, forward_all, turned_away,
}
use naia_relay.Rlp.Dispatch.{Ids}
use naia_relay.Tests.Samples.{python, why, refuse_all, echo_payload}

abbrev limits : Limits
limits = record {
  max_in_flight_requests = 2;
  max_queue_depth = 4;
  connection_timeout_seconds = 10;
  request_timeout_seconds = 30;
  heartbeat_timeout_seconds = 30;
  reconnect_attempts = 1;
}

abbrev runtime : BaseRuntime
runtime = new_runtime "direct" "relay1" "s1" limits

abbrev new_server : Server
new_server = idle "direct" "relay1" "s1" limits

abbrev asked_once : Server
asked_once = record {
  runtime = (guard_request runtime).1;
  in_flight = counted (guard_request runtime).0 0;
}

one_request : Run new_server asked_once
one_request = more done arrived

reachable-IsBalanced_example : IsBalanced limits asked_once
reachable-IsBalanced_example =
    reachable-IsBalanced "direct" "relay1" "s1" limits asked_once one_request

admission_example :
    ((asked_once.in_flight < 2)
      × (asked_once.in_flight < 4)
      × ((guard_request asked_once.runtime).0 ≡ ok tt))
    ⊎ (((2 ≤ asked_once.in_flight) ⊎ (4 ≤ asked_once.in_flight))
        × (((guard_request asked_once.runtime).0 ≡ raised (too_many_requests asked_once.runtime))
            ⊎ ((guard_request asked_once.runtime).0 ≡ raised (queue_too_deep asked_once.runtime))))
admission_example = admission "direct" "relay1" "s1" limits asked_once one_request

abbrev lists_tools : JsonRpcRequest
lists_tools = record { jsonrpc = "2.0"; id = str "1"; method = "tools/list"; params = empty }

abbrev direct : DirectRuntime
direct = new_direct (record runtime { started = true })

handle_mcp_message-Undisturbed_example :
    Undisturbed direct.world
      (handle_mcp_message python (λ o. valid lists_tools) none empty direct).1.world
handle_mcp_message-Undisturbed_example =
    handle_mcp_message-Undisturbed python (λ o. valid lists_tools) empty direct

-- A validator that reads the type of a message.
abbrev of_type : Option Value → Checked RlpEnvelope
of_type (some (str kind)) = valid (record {
  protocol = "rlp";
  version = "1.0";
  message_type = kind;
  message_id = "m1";
  relay_session_id = some "s1";
  source_relay_id = none;
  target_relay_id = none;
  request_id = none;
  execution_id = none;
  payload = empty;
})
of_type _ = invalid why

abbrev reads_type : Object → Checked RlpEnvelope
reads_type message = of_type (get "message_type" message)

abbrev one_tool : SnapshotPayload
one_tool = record { registry_revision = 1; tools = echo_payload ∷ []; resources = []; prompts = [] }

abbrev models : Models
models = record {
  envelope = reads_type;
  hello = refuse_all;
  bind_session = refuse_all;
  snapshot = λ o. valid one_tool;
  tool_mutation = refuse_all;
  tool_removed = refuse_all;
  resource_mutation = refuse_all;
  resource_removed = refuse_all;
  prompt_mutation = refuse_all;
  prompt_removed = refuse_all;
  read_resource = refuse_all;
  resource_result = refuse_all;
  get_prompt = refuse_all;
  prompt_result = refuse_all;
  execute_tool = refuse_all;
  execution_progress = refuse_all;
  execution_result = refuse_all;
  execution_error = refuse_all;
  heartbeat = refuse_all;
  disconnect = refuse_all;
}

abbrev ids : Ids
ids = record { response = "r1"; gap = "g1" }

-- A host that is not there.
abbrev unreachable : Requester ℕ
unreachable o tries = (raised (other_error "ConnectionRefusedError" "refused"), tries + 1)

-- A host that accepts.
abbrev agreeing : Requester ℕ
agreeing o tries = (
  ok (
      object
        (("payload", dict (object (("status", str "ok") ∷ ("details", dict empty) ∷ []))) ∷ [])),
  tries + 1,
)

abbrev around : Surroundings ℕ
around = record { expiry = λ attempt. none; now = 0; local_expiry = none }

abbrev client : Link ℕ
client = new_link runtime 0

bind_via_requester-attempts_example :
    let (r, s') = bind_via_requester python models ids around unreachable "s1" "relay1" client in
    (0 < s'.base.stats.reconnect_attempts) × (s'.base.stats.reconnect_attempts ≤ 2)
bind_via_requester-attempts_example =
    bind_via_requester-attempts python models ids around unreachable "s1" "relay1" refl client

abbrev up_client : Link ℕ
up_client = new_link (record runtime { started = true }) 0

types : KeepsType models
types message e kind accepted given = ap kind_of (sym (rw given at accepted))
  where
    kind_of : Checked RlpEnvelope → String
    kind_of (valid e') = e'.message_type
    kind_of (invalid _) = kind

bind_via_requester-Settled_example :
    Settled
      (status_of python models ids around agreeing "s1" "relay1")
      (bind_via_requester python models ids around agreeing "s1" "relay1" up_client)
bind_via_requester-Settled_example =
    bind_via_requester-Settled python models ids around agreeing "s1" "relay1" refl types up_client

abbrev forwarded : List Forwarded
forwarded = calls "m1" "e1" (str "echo") (dict empty) ∷ reads "m2" (str "u1") (dict empty) ∷ []

disconnected_forwards_nothing_example : forward_all python forwarded (on_rlp_disconnect client) ≡ (
  raised (stale_registry "execution") ∷ raised (stale_registry "reads") ∷ [],
  turned_away 2 (on_rlp_disconnect client),
)
disconnected_forwards_nothing_example = disconnected_forwards_nothing python forwarded client

abbrev self : Identity
self = record { host_relay_id = "relay1"; relay_session_id = "s1" }

abbrev asked_for : RlpEnvelope
asked_for = record {
  protocol = "rlp";
  version = "1.0";
  message_type = "execute_tool";
  message_id = "m1";
  relay_session_id = some "s1";
  source_relay_id = none;
  target_relay_id = none;
  request_id = none;
  execution_id = some "e1";
  payload = empty;
}

no_result : get "result" empty ≡ none
unfolding get
no_result = refl

errors_roundtrip_example :
    (tool_answer python (error_response "r1" self asked_for "timeout" "Request timed out" empty)
      ≡ raised (
          protocol_error
            (record { message = "Request timed out"; code = "timeout"; error_data = dict empty })))
    × (item_answer python "contents" "failed"
          (error_response "r1" self asked_for "timeout" "Request timed out" empty)
        ≡ raised (
            protocol_error (record {
              message = "Request timed out";
              code = "timeout";
              error_data = dict (object []);
            })))
errors_roundtrip_example =
    errors_roundtrip python "r1" self asked_for "timeout" "Request timed out" "contents" "failed"
      empty no_result
