-- ===== src/Runtime/Host/Stdio.antt =====
-- src/naia_relay/runtime/relay.py: HostRelayRuntime.handle_executor_stdio_message, which settles the
-- futures that the host's callbacks wait on.
use Prim.Native.String.{len, slice}
use naia_relay.Prelude.{◌-◌, String, Bool, Option, none, some, if◌then◌else◌, ◌==◌}
use naia_relay.Prelude.Dict.{lookup}
use naia_relay.Json.{Value, Object, get, truthy, is_text, array, str, dict, empty}
use naia_relay.Errors.{protocol_error, attribute_error, Interpreter, to_text}
use naia_relay.Call.{Call, Result, ok, raised, pure, modify, ◌>>=◌, ◌>>◌}
use naia_relay.Pydantic.{Checked, valid, invalid}
use naia_relay.Rlp.Handler.{RlpHandler}
use naia_relay.Tep.Models.{Models}
use naia_relay.Tep.Dump.{
  dump_progress, dump_result, dump_error, dump_resource_result, dump_prompt_result,
}
use naia_relay.Tep.Handler.{handle_message_or_error}
use naia_relay.Runtime.Direct.{tep_callbacks}
use naia_relay.Runtime.Forward.{get_or}
use naia_relay.Runtime.Host.{HostRuntime, waiting, settle, on_tep}

-- s.endswith(t)
abbrev pub ends_with : String → String → Bool
ends_with s t = slice s (len s - len t) (len s) == t

-- str(value or "")
abbrev pub text_of : Interpreter → Option Value → String
text_of python none = ""
text_of python (some v) = if truthy v then to_text python v else ""

-- The tests on the message's type, in their order.
pub data Kind : Type 0 where
  response progress execution_result execution_error resource_result prompt_result other : Kind

unfoldable pub kind_of : String → Kind
kind_of t =
    if ends_with t "_response"
    then response
    else if t == "execution_progress"
    then progress
    else if t == "execution_result"
    then execution_result
    else if t == "execution_error"
    then execution_error
    else if t == "resource_result"
    then resource_result
    else if t == "prompt_result"
    then prompt_result
    else other

-- Model.model_validate(value): a value that is no dict is invalid.
abbrev pub validate : {A : Type 0} → (Object → Checked A) → Value → Option A
validate check (dict o) = elim (check o) [ valid a ↦ some a | invalid _ ↦ none ]
validate check v = none

-- `data or {}`
unfoldable or_empty : Value → Value
unfolding truthy
or_empty v = if truthy v then v else dict empty

-- What a `_response` message gives the future it answers, or why it cannot be read.
unfoldable pub executor_answer : Interpreter → Value → Result (Result Value)
unfolding get or_empty
executor_answer python (dict o) =
    if is_text "ok" (get "status" o)
    then ok (ok (get_or "details" (dict empty) o))
    else ok (
        raised (
          protocol_error (record {
            message = to_text python (get_or "message" (str "Executor request failed") o);
            code = to_text python (get_or "code" (str "executor_error") o);
            error_data = or_empty (get_or "details" (dict empty) o);
          })))
executor_answer python v = raised (attribute_error (python.type_error "get" v))

module _ {P : Type 0} where
  abbrev pub settle_request : String → Result Value → HostRuntime P → HostRuntime P
  settle_request id r s = record s { pending_requests = settle id r s.pending_requests }

  abbrev pub settle_execution : String → Result Value → HostRuntime P → HostRuntime P
  settle_execution id r s = record s { pending_executions = settle id r s.pending_executions }

  abbrev pub set_rlp : (RlpHandler → RlpHandler) → HostRuntime P → HostRuntime P
  set_rlp f s = record s { rlp_handler = f s.rlp_handler }

abbrev pub payload : Object → Value
payload message = get_or "payload" (dict empty) message

abbrev pub request_id : Interpreter → Object → String
request_id python message = text_of python (get "request_id" message)

abbrev pub execution_id : Interpreter → Object → String
execution_id python message = text_of python (get "execution_id" message)

-- What an `execution_error` gives the future: a result among its details counts as one.
unfoldable pub error_outcome : String → String → Object → Result Value
unfolding get
error_outcome code text details = elim (get "result" details) [
  | some (dict result) ↦ ok (dict result)
  | _ ↦ raised (protocol_error (record { message = text; code = code; error_data = dict details }))
]

module _ {P : Type 0} (python : Interpreter) (models : Models) (mid : String)
    (message : Object) where
  unfoldable pub answer_request : Call (HostRuntime P) (Option Object)
  unfolding get lookup settle executor_answer truthy
  answer_request s = elim (lookup (request_id python message) s.pending_requests) [
    | some waiting ↦ elim (executor_answer python (payload message)) [
      | ok r ↦ (ok none, settle_request (request_id python message) r s)
      | raised e ↦ (raised e, s)
    ]
    | _ ↦ (ok none, s)
  ]

  -- The TEP handler answers the message; then a valid payload has its effect on the host.
  abbrev pub answer_then :
      {A : Type 0}
      → (Object → Checked A)
      → (A → HostRuntime P → HostRuntime P)
      → Call (HostRuntime P) (Option Object)
  answer_then check effect =
      on_tep python (handle_message_or_error (tep_callbacks python) mid models python message)
      >>= λ response.
          modify (elim (validate check (payload message)) [ none ↦ λ s. s | some p ↦ effect p ])
          >> pure (some response)

  unfoldable pub handle_kind : Kind → Call (HostRuntime P) (Option Object)
  unfolding answer_request settle get truthy array error_outcome dump_progress dump_result
      dump_error dump_resource_result dump_prompt_result
  handle_kind response = answer_request
  handle_kind progress =
      answer_then models.execution_progress
        (λ p. set_rlp (λ h. record h { last_progress = some (dump_progress p) }))
  handle_kind execution_result = answer_then models.execution_result (λ p s.
      set_rlp (λ h. record h { last_execution_result = some (dump_result p) })
        (settle_execution (execution_id python message) (ok (dict p.result)) s))
  handle_kind execution_error = answer_then models.execution_error (λ p s.
      set_rlp (λ h. record h { last_execution_error = some (dump_error p) })
        (settle_execution (execution_id python message) (error_outcome p.code p.message p.details)
          s))
  handle_kind resource_result = answer_then models.resource_result (λ p s.
      set_rlp (λ h. record h { last_resource_result = some (dump_resource_result p) })
        (settle_request (request_id python message) (ok (array p.contents)) s))
  handle_kind prompt_result = answer_then models.prompt_result (λ p s.
      set_rlp (λ h. record h { last_prompt_result = some (dump_prompt_result p) })
        (settle_request (request_id python message) (ok (array p.messages)) s))
  handle_kind other =
      on_tep python (handle_message_or_error (tep_callbacks python) mid models python message)
      >>= λ response. pure (some response)

  unfoldable pub handle_executor_stdio_message : Call (HostRuntime P) (Option Object)
  unfolding kind_of handle_kind get truthy
  handle_executor_stdio_message =
      handle_kind (kind_of (text_of python (get "message_type" message)))
