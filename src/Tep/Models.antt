-- ===== src/Tep/Models.antt =====
-- src/naia_relay/protocols/tep/models.py: the payload of each message. The classes are records;
-- how pydantic fills them from a dict is the parameter `Models`, a validator for each class.
use naia_relay.Prelude.{ℕ, String, Bool, Option, none, some, List, ◌==◌, if◌then◌else◌}
use naia_relay.Json.{Value, Object, dict, arr, nil, empty}
use naia_relay.Pydantic.{Checked, map_checked}

-- Runs before pydantic validates a dict field: an empty list is taken for an empty dict.
unfoldable pub coerce_empty_list_to_dict : Value → Value
coerce_empty_list_to_dict (arr nil) = dict empty
coerce_empty_list_to_dict v = v

pub record ExecutorCapabilities : Type 0 where
  pub tools : Bool
  pub resources : Bool
  pub prompts : Bool

pub record RegisterExecutorPayload : Type 0 where
  pub executor_id : String
  pub display_name : Option String
  pub capabilities : ExecutorCapabilities
  pub metadata : Object

pub record ToolPayload : Type 0 where
  pub name : String
  pub description : String
  pub input_schema : Object
  pub title : Option String
  pub output_schema : Option Object
  pub metadata : Object

pub record RegisterToolsPayload : Type 0 where
  pub tools : List ToolPayload

pub record DeregisterToolsPayload : Type 0 where
  pub tool_names : List String

pub record ResourcePayload : Type 0 where
  pub uri : String
  pub name : String
  pub description : Option String
  pub mime_type : Option String
  pub metadata : Object

pub record RegisterResourcesPayload : Type 0 where
  pub resources : List ResourcePayload

pub record DeregisterResourcesPayload : Type 0 where
  pub resource_uris : List String

pub record ReadResourcePayload : Type 0 where
  pub uri : String
  pub arguments : Object
  pub context : Object

pub record ResourceResultPayload : Type 0 where
  pub uri : String
  pub contents : List Value
  pub metadata : Object

pub record PromptArgumentPayload : Type 0 where
  pub name : String
  pub description : Option String
  pub required : Bool

pub record PromptPayload : Type 0 where
  pub name : String
  pub description : String
  pub arguments : List PromptArgumentPayload
  pub metadata : Object

pub record RegisterPromptsPayload : Type 0 where
  pub prompts : List PromptPayload

pub record DeregisterPromptsPayload : Type 0 where
  pub prompt_names : List String

pub record GetPromptPayload : Type 0 where
  pub name : String
  pub arguments : Object
  pub context : Object

pub record PromptResultPayload : Type 0 where
  pub name : String
  pub messages : List Value
  pub metadata : Object

pub record ExecuteToolPayload : Type 0 where
  pub tool_name : String
  pub arguments : Object
  pub context : Object
  pub stream : Bool

pub record ProgressPayload : Type 0 where
  pub message : Option String
  pub percentage : Option ℕ

pub record ExecutionProgressPayload : Type 0 where
  pub tool_name : String
  pub progress : ProgressPayload

pub record ExecutionResultPayload : Type 0 where
  pub tool_name : String
  pub result : Object
  pub is_error : Bool
  pub metadata : Object

pub record ExecutionErrorPayload : Type 0 where
  pub tool_name : String
  pub code : String
  pub message : String
  pub details : Object

pub record HeartbeatPayload : Type 0 where
  pub timestamp : String

pub record DisconnectPayload : Type 0 where
  pub reason : String

-- A message type with its payload: an entry of MESSAGE_PAYLOAD_MODELS with an instance of its class.
pub data Message : Type 0 where
  register_executor : RegisterExecutorPayload → Message
  register_tools : RegisterToolsPayload → Message
  deregister_tools : DeregisterToolsPayload → Message
  register_resources : RegisterResourcesPayload → Message
  deregister_resources : DeregisterResourcesPayload → Message
  read_resource : ReadResourcePayload → Message
  resource_result : ResourceResultPayload → Message
  register_prompts : RegisterPromptsPayload → Message
  deregister_prompts : DeregisterPromptsPayload → Message
  get_prompt : GetPromptPayload → Message
  prompt_result : PromptResultPayload → Message
  execute_tool : ExecuteToolPayload → Message
  execution_progress : ExecutionProgressPayload → Message
  execution_result : ExecutionResultPayload → Message
  execution_error : ExecutionErrorPayload → Message
  heartbeat : HeartbeatPayload → Message
  shutdown : DisconnectPayload → Message
  disconnect_notice : DisconnectPayload → Message

-- class TEPEnvelope of handler.py
pub record TepEnvelope : Type 0 where
  pub protocol : String
  pub version : String
  pub message_type : String
  pub message_id : String
  pub session_id : Option String
  pub request_id : Option String
  pub execution_id : Option String
  pub payload : Object

-- pydantic: a validator for each class.
pub record Models : Type 0 where
  pub envelope : Object → Checked TepEnvelope
  pub register_executor : Object → Checked RegisterExecutorPayload
  pub register_tools : Object → Checked RegisterToolsPayload
  pub deregister_tools : Object → Checked DeregisterToolsPayload
  pub register_resources : Object → Checked RegisterResourcesPayload
  pub deregister_resources : Object → Checked DeregisterResourcesPayload
  pub read_resource : Object → Checked ReadResourcePayload
  pub resource_result : Object → Checked ResourceResultPayload
  pub register_prompts : Object → Checked RegisterPromptsPayload
  pub deregister_prompts : Object → Checked DeregisterPromptsPayload
  pub get_prompt : Object → Checked GetPromptPayload
  pub prompt_result : Object → Checked PromptResultPayload
  pub execute_tool : Object → Checked ExecuteToolPayload
  pub execution_progress : Object → Checked ExecutionProgressPayload
  pub execution_result : Object → Checked ExecutionResultPayload
  pub execution_error : Object → Checked ExecutionErrorPayload
  pub heartbeat : Object → Checked HeartbeatPayload
  pub disconnect : Object → Checked DisconnectPayload

-- MESSAGE_PAYLOAD_MODELS.get(message_type), and model_validate of the class that it gives.
unfoldable pub load : Models → String → Object → Option (Checked Message)
load m t o =
    if t == "register_executor"
    then some (map_checked register_executor (m.register_executor o))
    else if t == "register_tools"
    then some (map_checked register_tools (m.register_tools o))
    else if t == "deregister_tools"
    then some (map_checked deregister_tools (m.deregister_tools o))
    else if t == "register_resources"
    then some (map_checked register_resources (m.register_resources o))
    else if t == "deregister_resources"
    then some (map_checked deregister_resources (m.deregister_resources o))
    else if t == "read_resource"
    then some (map_checked read_resource (m.read_resource o))
    else if t == "resource_result"
    then some (map_checked resource_result (m.resource_result o))
    else if t == "register_prompts"
    then some (map_checked register_prompts (m.register_prompts o))
    else if t == "deregister_prompts"
    then some (map_checked deregister_prompts (m.deregister_prompts o))
    else if t == "get_prompt"
    then some (map_checked get_prompt (m.get_prompt o))
    else if t == "prompt_result"
    then some (map_checked prompt_result (m.prompt_result o))
    else if t == "execute_tool"
    then some (map_checked execute_tool (m.execute_tool o))
    else if t == "execution_progress"
    then some (map_checked execution_progress (m.execution_progress o))
    else if t == "execution_result"
    then some (map_checked execution_result (m.execution_result o))
    else if t == "execution_error"
    then some (map_checked execution_error (m.execution_error o))
    else if t == "heartbeat"
    then some (map_checked heartbeat (m.heartbeat o))
    else if t == "shutdown"
    then some (map_checked shutdown (m.disconnect o))
    else if t == "disconnect_notice"
    then some (map_checked disconnect_notice (m.disconnect o))
    else none
