-- ===== src/Tep/Handler.antt =====
-- src/naia_relay/protocols/tep/handler.py: TEPHandler. The registry that the handler shares with
-- its runtime, the handler's own fields and whatever its callbacks act on are the three parts of
-- the state. A callback is a call on the third part.
use Prim.Native.String.{◌++◌ as ◌<>◌}
use naia_relay.Prelude.{
  String, Bool, true, false, Option, none, some, List, [], ◌∷◌, map, ◌==◌, not, ◌&&◌, ◌||◌,
  if◌then◌else◌, is_some,
}
use naia_relay.Json.{Value, Object, object, array, str, empty}
use naia_relay.Errors.{Exn, value_error, is_value_error, Interpreter}
use naia_relay.Call.{Call, Result, ok, raised, pure, raise, lift, modify, zoom, catch, ◌>>=◌, ◌>>◌}
use naia_relay.Pydantic.{Checked, or_raise}
use naia_relay.Registry.Models.{ToolDefinition, ResourceDefinition, PromptDefinition}
use naia_relay.Registry.Store.{
  RegistryStore, register_tool, deregister_tool, register_resource, deregister_resource,
  register_prompt, deregister_prompt,
}
use naia_relay.Tep.Models as Payload
use naia_relay.Tep.Models.{
  Message, Models, TepEnvelope, ToolPayload, ResourcePayload, PromptPayload, ExecuteToolPayload,
  ReadResourcePayload, GetPromptPayload, load,
}
use naia_relay.Tep.Dump.{
  dump_progress, dump_result, dump_error, dump_resource_result, dump_prompt_result, dump_argument,
}
use naia_relay.Tep.Response.{ok_response, error_response, build_validation_error_response}

pub record TepHandler : Type 0 where
  pub executor_available : Bool
  pub last_progress : Option Object
  pub last_execution_result : Option Object
  pub last_execution_error : Option Object
  pub last_resource_result : Option Object
  pub last_prompt_result : Option Object

-- TEPHandler(registry=...)
abbrev pub new_handler : TepHandler
new_handler = record {
  executor_available = true;
  last_progress = none;
  last_execution_result = none;
  last_execution_error = none;
  last_resource_result = none;
  last_prompt_result = none;
}

pub record Handling (W : Type 0) : Type 0 where
  pub registry : RegistryStore
  pub handler : TepHandler
  pub world : W

pub record Callbacks (W : Type 0) : Type 0 where
  pub execute_tool : Option (ExecuteToolPayload → Call W Object)
  pub read_resource : Option (ReadResourcePayload → Call W (List Value))
  pub get_prompt : Option (GetPromptPayload → Call W (List Value))

-- The definitions that the three register loops build from their payloads.
unfoldable pub tool_of : Option String → ToolPayload → ToolDefinition
tool_of owner tool = record {
  name = tool.name;
  title = tool.title;
  description = tool.description;
  input_schema = tool.input_schema;
  output_schema = tool.output_schema;
  metadata = tool.metadata;
  owner_session_id = owner;
}

unfoldable pub resource_of : Option String → ResourcePayload → ResourceDefinition
resource_of owner resource = record {
  uri = resource.uri;
  name = resource.name;
  description = resource.description;
  mime_type = resource.mime_type;
  metadata = resource.metadata;
  owner_session_id = owner;
}

unfoldable pub prompt_of : Option String → PromptPayload → PromptDefinition
prompt_of owner prompt = record {
  name = prompt.name;
  description = prompt.description;
  arguments = map dump_argument prompt.arguments;
  metadata = prompt.metadata;
  owner_session_id = owner;
}

-- for item in items: f(item)
unfoldable pub for_each : {S A B : Type 0} → (A → Call S B) → List A → Call S Unit
for_each f [] = pure tt
for_each f (x ∷ xs) = f x >> for_each f xs

unfoldable pub needs_execution_id : String → Bool
needs_execution_id t =
    t == "execute_tool"
    || t == "execution_progress"
    || t == "execution_result"
    || t == "execution_error"

-- The tests on an envelope that pydantic has accepted.
unfoldable pub check_envelope : TepEnvelope → Result TepEnvelope
unfolding needs_execution_id
check_envelope e =
    if not (e.protocol == "tep")
    then raised (value_error "TEP messages must have protocol='tep'")
    else if not (e.version == "1.0")
    then raised (value_error ("Unsupported TEP version: " <> e.version))
    else if needs_execution_id e.message_type && not (is_some e.execution_id)
    then raised (value_error (e.message_type <> " requires execution_id"))
    else ok e

unfoldable pub validate_message : Models → Object → Result TepEnvelope
unfolding check_envelope
validate_message models message = elim (models.envelope message) [
  | Checked.invalid e ↦ raised (Exn.validation_error e)
  | Checked.valid e ↦ check_envelope e
]

module _ {W : Type 0} where
  abbrev pub on_registry : {A : Type 0} → Call RegistryStore A → Call (Handling W) A
  on_registry = zoom (λ s. s.registry) (λ r s. record s { registry = r })

  abbrev pub on_world : {A : Type 0} → Call W A → Call (Handling W) A
  on_world = zoom (λ s. s.world) (λ w s. record s { world = w })

  abbrev pub set_handler : (TepHandler → TepHandler) → Call (Handling W) Unit
  set_handler f = modify (λ s. record s { handler = f s.handler })

module _ {W : Type 0} (callbacks : Callbacks W) (mid : String) where
  abbrev answer : TepEnvelope → Object → Call (Handling W) Object
  answer envelope details = pure (ok_response mid envelope details)

  abbrev missing : TepEnvelope → String → Call (Handling W) Object
  missing envelope what =
      pure (error_response mid envelope "unimplemented" (what <> " callback missing"))

  -- The branches of `match envelope.message_type`. Its last case is not reached, since every key of
  -- MESSAGE_PAYLOAD_MODELS has a branch.
  unfoldable pub dispatch : TepEnvelope → Message → Call (Handling W) Object
  unfolding for_each tool_of resource_of prompt_of dump_progress dump_result dump_error
      dump_resource_result dump_prompt_result object array
  dispatch e (Payload.register_executor p) =
      answer e (object (("executor_id", str p.executor_id) ∷ []))
  dispatch e (Payload.register_tools p) = do
    on_registry (for_each (λ tool. register_tool (tool_of e.session_id tool)) p.tools)
    answer e empty
  dispatch e (Payload.deregister_tools p) = do
    on_registry (for_each deregister_tool p.tool_names)
    answer e empty
  dispatch e (Payload.register_resources p) = do
    on_registry
        (for_each (λ resource. register_resource (resource_of e.session_id resource)) p.resources)
    answer e empty
  dispatch e (Payload.deregister_resources p) = do
    on_registry (for_each deregister_resource p.resource_uris)
    answer e empty
  dispatch e (Payload.register_prompts p) = do
    on_registry (for_each (λ prompt. register_prompt (prompt_of e.session_id prompt)) p.prompts)
    answer e empty
  dispatch e (Payload.deregister_prompts p) = do
    on_registry (for_each deregister_prompt p.prompt_names)
    answer e empty
  dispatch e (Payload.execute_tool p) = elim callbacks.execute_tool [
    | none ↦ missing e "execute_tool"
    | some f ↦ on_world (f p) >>= answer e
  ]
  dispatch e (Payload.read_resource p) = elim callbacks.read_resource [
    | none ↦ missing e "read_resource"
    | some f ↦ on_world (f p) >>= λ contents.
        answer e (object (("uri", str p.uri) ∷ ("contents", array contents) ∷ []))
  ]
  dispatch e (Payload.resource_result p) = do
    set_handler (λ h. record h { last_resource_result = some (dump_resource_result p) })
    answer e (dump_resource_result p)
  dispatch e (Payload.get_prompt p) = elim callbacks.get_prompt [
    | none ↦ missing e "get_prompt"
    | some f ↦ on_world (f p) >>= λ messages.
        answer e (object (("name", str p.name) ∷ ("messages", array messages) ∷ []))
  ]
  dispatch e (Payload.prompt_result p) = do
    set_handler (λ h. record h { last_prompt_result = some (dump_prompt_result p) })
    answer e (dump_prompt_result p)
  dispatch e (Payload.execution_progress p) = do
    set_handler (λ h. record h { last_progress = some (dump_progress p) })
    answer e (dump_progress p)
  dispatch e (Payload.execution_result p) = do
    set_handler (λ h. record h { last_execution_result = some (dump_result p) })
    answer e (dump_result p)
  dispatch e (Payload.execution_error p) = do
    set_handler (λ h. record h { last_execution_error = some (dump_error p) })
    answer e (dump_error p)
  dispatch e (Payload.heartbeat p) = answer e empty
  dispatch e (Payload.shutdown p) = answer e empty
  dispatch e (Payload.disconnect_notice p) = do
    set_handler (λ h. record h { executor_available = false })
    answer e empty

  abbrev pub deliver : TepEnvelope → Option (Checked Message) → Call (Handling W) Object
  deliver e none = pure (error_response mid e "unknown_message_type" e.message_type)
  deliver e (some checked) = lift (or_raise checked) >>= dispatch e

  module _ (models : Models) where
    unfoldable pub handle_message : Object → Call (Handling W) Object
    handle_message message = do
      envelope ← lift (validate_message models message)
      deliver envelope (load models envelope.message_type envelope.payload)

    unfoldable pub handle_message_or_error : Interpreter → Object → Call (Handling W) Object
    unfolding handle_message
    handle_message_or_error python message = catch (handle_message message) λ e.
        if is_value_error e
        then pure (build_validation_error_response python mid message e)
        else raise e
