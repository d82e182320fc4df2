-- ===== src/Tests/Host.antt =====
-- Runs of the host's theorems.
use naia_relay.Prelude.{List, ◌≡◌, refl, ◌⊎◌, ℕ, Bool, Option, some, true, false, [], ◌∷◌}
use naia_relay.Prelude.Dict.{lookup, insert}
use naia_relay.Json.{Object, object, get, str, dict, empty, truthy}
use naia_relay.Call.{Call, ok, raised, pure}
use naia_relay.Pydantic.{valid}
use naia_relay.Tep.Models.{Models, load, ExecutionResultPayload}
use naia_relay.Tep.Handler.{handle_message_or_error, validate_message, dispatch}
use naia_relay.Rlp.Models.{ExecuteToolPayload}
use naia_relay.Runtime.Base.{Limits, new_runtime, timed_out, record_timeout}
use naia_relay.Runtime.Host.{
  host_holds, HostRuntime, waiting, settled, new_host, disconnected, detach_executor_transport,
}
use naia_relay.Runtime.Host.Callbacks.{begin_execution, awaits, enter_execution}
use naia_relay.Runtime.Host.Stdio.{execution_id, payload, handle_executor_stdio_message}
use naia_relay.Runtime.Host.Exchange.{detached}
use naia_relay.Runtime.Host.Settled.{settled_once}
use naia_relay.Runtime.Host.Resuming.{executions, leave, await, pending, outcome}
use naia_relay.Runtime.Host.Waking.{detach_wakes, execution_answered}
use naia_relay.Runtime.Serving.{Arrival}
use naia_relay.Tests.Samples.{python}
use naia_relay.Tests.Tep.{models, envelope}

abbrev pub limits : Limits
limits = record {
  max_in_flight_requests = 2;
  max_queue_depth = 4;
  connection_timeout_seconds = 10;
  request_timeout_seconds = 30;
  heartbeat_timeout_seconds = 30;
  reconnect_attempts = 1;
}

-- A host with an executor attached.
abbrev attached_host : HostRuntime Unit
attached_host = record (new_host (new_runtime "host" "relay1" "s1" limits) tt) {
  executor_transport = some 7;
}

abbrev asks : ExecuteToolPayload
asks = record { tool_name = "echo"; arguments = empty; context = empty; stream = false }

abbrev delivers : ℕ → Object → Call Unit Unit
delivers adapter message = pure tt

abbrev asking : HostRuntime Unit
asking = enter_execution "e1" attached_host

abbrev result : ExecutionResultPayload
result = record { tool_name = "echo"; result = empty; is_error = false; metadata = empty }

abbrev answers : Models
answers = record (models "execution_result") {
  envelope = λ o. valid (record (envelope "execution_result") { execution_id = some "e1" });
  execution_result = λ o. valid result;
}

abbrev answer : Object
answer = object (
    ("message_type", str "execution_result")
    ∷ ("execution_id", str "e1")
    ∷ ("payload", dict empty)
    ∷ [])

is_waiting : lookup "e1" (pending executions asking) ≡ some waiting
unfolding lookup insert
is_waiting = refl

detach_wakes_example :
    let s' = detach_executor_transport (some 7) asking in
    (await executions false "e1" s' ≡ some (raised disconnected, leave executions "e1" s'))
    × (await executions true "e1" s'
        ≡ some (
          raised (timed_out "Request" s'.base.limits.request_timeout_seconds),
          leave executions "e1" (host_holds.update record_timeout s'),
        ))
detach_wakes_example = detach_wakes executions (some 7) "e1" asking refl is_waiting

heard_ok :
    let begun = begin_execution python delivers "m1" "e1" asks attached_host in
    (response : Option Object) × ((handle_executor_stdio_message python answers "m2" answer
        begun.1).0
      ≡ ok response)
unfolding handle_executor_stdio_message handle_message_or_error validate_message load dispatch
heard_ok = (_, refl)

message_type : get "message_type" answer ≡ some (str "execution_result")
unfolding get object
message_type = refl

same_id : execution_id python answer ≡ "e1"
unfolding get object truthy
same_id = refl

same_payload : payload answer ≡ dict empty
unfolding get object
same_payload = refl

execution_answered_example :
    let begun = begin_execution python delivers "m1" "e1" asks attached_host in
    let heard = handle_executor_stdio_message python answers "m2" answer begun.1 in
    (begun.0 ≡ ok (awaits "e1"))
    × (await executions false "e1" heard.1 ≡ some (ok (dict empty), leave executions "e1" heard.1))
    × (await executions true "e1" heard.1
        ≡ some (
          raised (timed_out "Request" heard.1.base.limits.request_timeout_seconds),
          leave executions "e1" (host_holds.update record_timeout heard.1),
        ))
execution_answered_example =
    execution_answered python delivers answers "m1" "e1" "m2" asks 7 answer empty result heard_ok.0
      attached_host refl refl message_type same_id same_payload refl heard_ok.1

abbrev answered_host : HostRuntime Unit
answered_host = record attached_host { pending_executions = ("e1", settled (ok (dict empty))) ∷ [] }

is_settled : lookup "e1" (pending executions answered_host) ≡ some (settled (ok (dict empty)))
unfolding lookup
is_settled = refl

settled_once_example :
    let after = detach_executor_transport (some 7) answered_host in
    (lookup "e1" (pending executions after) ≡ some (settled (ok (dict empty))))
    ⊎ ((late : Bool) × (await executions late "e1" answered_host
          ≡ some (outcome late (ok (dict empty)) answered_host, after)))
settled_once_example =
    settled_once python answers delivers executions "e1" (ok (dict empty)) (detached (some 7))
      is_settled

-- A session with one answer, while another task begins an execution.
abbrev session : List (Arrival (HostRuntime Unit))
session = record { meanwhile = enter_execution "e2"; message = answer } ∷ []

abbrev hears : Object → Call (HostRuntime Unit) (Option Object)
hears = handle_executor_stdio_message python answers "m2"

abbrev quiet_send : Object → Call (HostRuntime Unit) Unit
quiet_send message = pure tt

abbrev running : HostRuntime Unit
running = record attached_host { base = record attached_host.base { started = true } }
