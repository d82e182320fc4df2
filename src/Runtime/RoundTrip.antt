-- ===== src/Runtime/RoundTrip.antt =====
-- What the host answers and what the client reads from the answer: RLPHandler._ok_response and
-- _error_response against ClientRelayRuntime.call_tool, read_resource and get_prompt.
use naia_relay.Prelude.{◌≡◌, refl, String, none, some, [], arith}
use naia_relay.Json.{Object, get, object, dict}
use naia_relay.Errors.{protocol_error, Interpreter}
use naia_relay.Call.{raised}
use naia_relay.Tep.Response.{error_status}
use naia_relay.Rlp.Models.{RlpEnvelope}
use naia_relay.Rlp.Response.{Identity, rlp_reply, error_response}
use naia_relay.Runtime.Forward.{tool_answer, item_answer, failed_execution, upstream_error}

-- A failed execution whose details hold no result raises them.
failed_execution_no_result :
    (python : Interpreter) (payload details : Object)
    → get "details" payload ≡ some (dict details)
    → get "result" details ≡ none
    → failed_execution python payload
      ≡ raised (upstream_error python "Upstream tool execution failed" payload details)
unfolding failed_execution
failed_execution_no_result python payload details given none_given =
    ground (arith, given, none_given)

module _ (python : Interpreter) (mid : String) (self : Identity) (e : RlpEnvelope) where
  -- An error that the host answers, whose details hold no result, is raised by the client with the
  -- host's code and message, and by a forwarded execution with the host's details.
  pub errors_roundtrip :
      (code message key default : String) (details : Object)
      → get "result" details ≡ none
      → (tool_answer python (error_response mid self e code message details)
          ≡ raised (
              protocol_error
                (record { message = message; code = code; error_data = dict details })))
        × (item_answer python key default (error_response mid self e code message details)
            ≡ raised (
                protocol_error
                  (record { message = message; code = code; error_data = dict (object []) })))
  unfolding tool_answer item_answer error_response rlp_reply error_status get object
  errors_roundtrip code message key default details h =
      (failed_execution_no_result python (error_status code message details) details refl h, refl)
