-- ===== src/Runtime/Host/Exchange.antt =====
-- The exchange of a host with its executor as a step relation: the callbacks begin and resume, the
-- executor's messages come and the transport changes, in any order.
use naia_relay.Prelude.{◌≡◌, ℕ, String, Bool, Option, none, some}
use naia_relay.Prelude.Dict.{lookup}
use naia_relay.Json.{Value, Object}
use naia_relay.Errors.{Interpreter}
use naia_relay.Call.{Call, Result}
use naia_relay.Tep.Models.{Models}
use naia_relay.Rlp.Models.{ExecuteToolPayload, ReadResourcePayload, GetPromptPayload}
use naia_relay.Runtime.Host.{HostRuntime, attach_executor_transport, detach_executor_transport}
use naia_relay.Runtime.Host.Callbacks.{
  begin_execution, begin_read, begin_prompt, await_execution, await_request,
}
use naia_relay.Runtime.Host.Stdio.{handle_executor_stdio_message}

-- The environment: how messages are sent, and how pydantic fills the payloads.
module _ {P : Type 0} (python : Interpreter) (models : Models)
    (send : ℕ → Object → Call P Unit) where
  -- A new id is free in its table, as ids are drawn at random.
  pub data Step : HostRuntime P → HostRuntime P → Type 0 where
    executes :
        {s : HostRuntime P} (mid id : String) (p : ExecuteToolPayload)
        → lookup id s.pending_executions ≡ none
        → Step s (begin_execution python send mid id p s).1
    reads :
        {s : HostRuntime P} (mid : String) (p : ReadResourcePayload)
        → lookup mid s.pending_requests ≡ none
        → Step s (begin_read python send mid p s).1
    prompts :
        {s : HostRuntime P} (mid : String) (p : GetPromptPayload)
        → lookup mid s.pending_requests ≡ none
        → Step s (begin_prompt python send mid p s).1
    hears :
        {s : HostRuntime P} (mid : String) (message : Object)
        → Step s (handle_executor_stdio_message python models mid message s).1
    attaches : {s : HostRuntime P} (adapter : ℕ) → Step s (attach_executor_transport adapter s)
    detached :
        {s : HostRuntime P} (adapter : Option ℕ) → Step s (detach_executor_transport adapter s)
    resumes_execution :
        {s t : HostRuntime P} (late : Bool) (id : String) (r : Result Value)
        → await_execution late id s ≡ some (r, t)
        → Step s t
    resumes_request :
        {s t : HostRuntime P} (late : Bool) (id : String) (r : Result Value)
        → await_request late id s ≡ some (r, t)
        → Step s t
