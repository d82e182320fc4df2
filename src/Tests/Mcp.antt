-- ===== src/Tests/Mcp.antt =====
-- Runs of the MCP handler's theorems.
use naia_relay.Prelude.{◌≡◌, refl, none, some, false}
use naia_relay.Json.{Object, get, nat, empty}
use naia_relay.Call.{ok}
use naia_relay.Registry.Store.{RegistryStore}
use naia_relay.Mcp.Response.{JsonRpcRequest}
use naia_relay.Mcp.Handler.{Handling, Callbacks, new_handler, method_of, dispatch}
use naia_relay.Mcp.Answers.{Outcome, dispatch-Outcome, initialize_answer, Initialized}
use naia_relay.Tests.Samples.{python, host}

abbrev registry_of : RegistryStore → RegistryStore
registry_of s = s

abbrev callbacks : Callbacks RegistryStore
callbacks = record { execute_tool = none; read_resource = none; get_prompt = none }

abbrev state : Handling RegistryStore
state = record { handler = new_handler; world = host }

abbrev call : JsonRpcRequest
call = record { jsonrpc = "2.0"; id = nat 7; method = "tools/call"; params = empty }

dispatch-Outcome_example :
    Outcome call (method_of "tools/call") (dispatch registry_of callbacks python call state).0
dispatch-Outcome_example = dispatch-Outcome registry_of callbacks python call state

abbrev initialize : JsonRpcRequest
initialize = record { jsonrpc = "2.0"; id = nat 1; method = "initialize"; params = empty }

initialize_answer_example :
    let (r, s') = dispatch registry_of callbacks python initialize state in
    (response : Object) × (r ≡ ok (some response))
    × Initialized (nat 1) (get "protocolVersion" empty) response
    × (s'.handler.initialized ≡ false)
initialize_answer_example = initialize_answer registry_of callbacks python initialize state refl
