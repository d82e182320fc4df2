-- ===== src/Tests/Tep.antt =====
-- Runs of the TEP handler's theorems.
use naia_relay.Prelude.{◌≡◌, refl, ap, String, [], ◌∷◌, none, some, false, ◌⊎◌}
use naia_relay.Prelude.Dict.{lookup}
use naia_relay.Json.{empty}
use naia_relay.Errors.{key_error, is_value_error}
use naia_relay.Call.{ok, raised}
use naia_relay.Pydantic.{valid}
use naia_relay.Registry.Store.{get_tool}
use naia_relay.Tep.Models as Payload
use naia_relay.Tep.Models.{Models, TepEnvelope, load}
use naia_relay.Tep.Response.{ok_response}
use naia_relay.Tep.Handler.{
  Handling, Callbacks, new_handler, check_envelope, validate_message, handle_message,
  handle_message_or_error, dispatch, needs_execution_id,
}
use naia_relay.Tep.Registration.{AllIn, CutShort, register_tools-outcome}
use naia_relay.Tep.Correlation.{Answers, handle_message-Answers}
use naia_relay.Tep.Refusals.{no_value_error_escapes, deregister_unknown_escapes}
use naia_relay.Tests.Samples.{python, refuse_all, echo_payload, host}

abbrev callbacks : Callbacks Unit
callbacks = record { execute_tool = none; read_resource = none; get_prompt = none }

abbrev state : Handling Unit
state = record { registry = host; handler = new_handler; world = tt }

abbrev pub envelope : String → TepEnvelope
envelope kind = record {
  protocol = "tep";
  version = "1.0";
  message_type = kind;
  message_id = "m1";
  session_id = some "s1";
  request_id = none;
  execution_id = none;
  payload = empty;
}

-- A peer whose every message is of one kind.
abbrev pub models : String → Models
models kind = record {
  envelope = λ o. valid (envelope kind);
  register_executor = refuse_all;
  register_tools = λ o. valid (record { tools = echo_payload ∷ [] });
  deregister_tools = λ o. valid (record { tool_names = "gone" ∷ [] });
  register_resources = refuse_all;
  deregister_resources = refuse_all;
  read_resource = refuse_all;
  resource_result = refuse_all;
  register_prompts = refuse_all;
  deregister_prompts = refuse_all;
  get_prompt = refuse_all;
  prompt_result = refuse_all;
  execute_tool = refuse_all;
  execution_progress = refuse_all;
  execution_result = refuse_all;
  execution_error = refuse_all;
  heartbeat = λ o. valid (record { timestamp = "now" });
  disconnect = refuse_all;
}

accepted : validate_message (models "register_tools") empty ≡ ok (envelope "register_tools")
unfolding validate_message check_envelope needs_execution_id
accepted = refl

loaded :
    load (models "register_tools") "register_tools" empty
    ≡ some (valid (Payload.register_tools (record { tools = echo_payload ∷ [] })))
unfolding load
loaded = refl

register_tools-outcome_example :
    AllIn callbacks "r1"
      (models "register_tools")
      python
      empty
      (envelope "register_tools")
      (echo_payload ∷ [])
      state
    ⊎ CutShort callbacks "r1"
        (models "register_tools")
        python
        empty
        (envelope "register_tools")
        (echo_payload ∷ [])
        state
register_tools-outcome_example =
    register_tools-outcome callbacks "r1" (models "register_tools") python empty
      (envelope "register_tools") (echo_payload ∷ []) state
      (record { accepted = accepted; loaded = loaded })

accepted_heartbeat : validate_message (models "heartbeat") empty ≡ ok (envelope "heartbeat")
unfolding validate_message check_envelope needs_execution_id
accepted_heartbeat = refl

heartbeat_answered :
    (handle_message callbacks "r1" (models "heartbeat") empty state).0
    ≡ ok (ok_response "r1" (envelope "heartbeat") empty)
unfolding handle_message validate_message check_envelope needs_execution_id load dispatch
heartbeat_answered = refl

handle_message-Answers_example :
    (e : TepEnvelope) × (validate_message (models "heartbeat") empty ≡ ok e)
    × Answers e (ok_response "r1" (envelope "heartbeat") empty)
handle_message-Answers_example =
    handle_message-Answers callbacks "r1" (models "heartbeat") empty state heartbeat_answered

accepted_removal :
    validate_message (models "deregister_tools") empty ≡ ok (envelope "deregister_tools")
unfolding validate_message check_envelope needs_execution_id
accepted_removal = refl

loaded_removal :
    load (models "deregister_tools") "deregister_tools" empty
    ≡ some (valid (Payload.deregister_tools (record { tool_names = "gone" ∷ [] })))
unfolding load
loaded_removal = refl

gone : get_tool "gone" host ≡ none
unfolding get_tool lookup
gone = refl

deregister_unknown_escapes_example :
    handle_message_or_error callbacks "r1" (models "deregister_tools") python empty state
    ≡ (raised (key_error "gone"), state)
deregister_unknown_escapes_example =
    deregister_unknown_escapes callbacks "r1" (models "deregister_tools") python empty state
      (envelope "deregister_tools") "gone" [] accepted_removal loaded_removal gone

escapes :
    (handle_message_or_error callbacks "r1" (models "deregister_tools") python empty state).0
    ≡ raised (key_error "gone")
escapes =
    ap (λ r. r.0)
      (deregister_unknown_escapes callbacks "r1" (models "deregister_tools") python empty state
        (envelope "deregister_tools") "gone" [] accepted_removal loaded_removal gone)

no_value_error_escapes_example : is_value_error (key_error "gone") ≡ false
no_value_error_escapes_example =
    no_value_error_escapes callbacks "r1" (models "deregister_tools") python empty state escapes
