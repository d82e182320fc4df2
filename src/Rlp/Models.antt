-- ===== src/Rlp/Models.antt =====
-- src/naia_relay/protocols/rlp/models.py: the payload of each message, as records. How
-- pydantic fills them is the parameter `Models`.
use naia_relay.Prelude.{ℕ, String, Bool, Option, none, some, List, ◌==◌, if◌then◌else◌}
use naia_relay.Json.{Value, Object}
use naia_relay.Pydantic.{Checked, map_checked}
use naia_relay.Tep.Models.{ToolPayload, ResourcePayload, PromptPayload}

pub data Role : Type 0 where
  host client : Role

pub record HelloPayload : Type 0 where
  pub relay_id : String
  pub role : Role
  pub capabilities : List (String × Bool)
  pub metadata : Object

pub record BindSessionPayload : Type 0 where
  pub relay_session_id : String
  pub session_token : Option String
  pub client_instance_id : String

-- A revision is an int of either sign for pydantic. Hosts count theirs from zero, and a message with
-- a negative one is not modelled.
pub record SnapshotPayload : Type 0 where
  pub registry_revision : ℕ
  pub tools : List ToolPayload
  pub resources : List ResourcePayload
  pub prompts : List PromptPayload

pub record ToolMutationPayload : Type 0 where
  pub registry_revision : ℕ
  pub tool : ToolPayload

pub record ToolRemovedPayload : Type 0 where
  pub registry_revision : ℕ
  pub tool_name : String

pub record ResourceMutationPayload : Type 0 where
  pub registry_revision : ℕ
  pub resource : ResourcePayload

pub record ResourceRemovedPayload : Type 0 where
  pub registry_revision : ℕ
  pub uri : String

pub record PromptMutationPayload : Type 0 where
  pub registry_revision : ℕ
  pub prompt : PromptPayload

pub record PromptRemovedPayload : Type 0 where
  pub registry_revision : ℕ
  pub name : String

pub record ReadResourcePayload : Type 0 where
  pub uri : String
  pub arguments : Object
  pub context : Object

pub record ResourceResultPayload : Type 0 where
  pub uri : String
  pub contents : List Value
  pub metadata : Object

pub record GetPromptPayload : Type 0 where
  pub name : String
  pub arguments : Object
  pub context : Object

pub record PromptResultPayload : Type 0 where
  pub name : String
  pub messages : List Value
  pub metadata : Object

pub record ExecuteToolPayload : Type 0 where
  pub tool_name : String
  pub arguments : Object
  pub context : Object
  pub stream : Bool

pub record ProgressPayload : Type 0 where
  pub message : Option String
  pub percentage : Option ℕ

pub record ExecutionProgressPayload : Type 0 where
  pub tool_name : String
  pub progress : ProgressPayload

pub record ExecutionResultPayload : Type 0 where
  pub tool_name : String
  pub result : Object
  pub is_error : Bool
  pub metadata : Object

pub record ExecutionErrorPayload : Type 0 where
  pub tool_name : String
  pub code : String
  pub message : String
  pub details : Object

pub record HeartbeatPayload : Type 0 where
  pub timestamp : String

pub record DisconnectPayload : Type 0 where
  pub reason : String

-- A message type with its payload. Types that the handler treats alike share a constructor.
pub data Message : Type 0 where
  hello : HelloPayload → Message
  bind_session : BindSessionPayload → Message
  snapshot : SnapshotPayload → Message
  tool_upsert : ToolMutationPayload → Message
  tool_removed : ToolRemovedPayload → Message
  resource_upsert : ResourceMutationPayload → Message
  resource_removed : ResourceRemovedPayload → Message
  prompt_upsert : PromptMutationPayload → Message
  prompt_removed : PromptRemovedPayload → Message
  read_resource : ReadResourcePayload → Message
  resource_result : ResourceResultPayload → Message
  get_prompt : GetPromptPayload → Message
  prompt_result : PromptResultPayload → Message
  execute_tool : ExecuteToolPayload → Message
  execution_progress : ExecutionProgressPayload → Message
  execution_result : ExecutionResultPayload → Message
  execution_error : ExecutionErrorPayload → Message
  heartbeat : HeartbeatPayload → Message
  disconnect_notice : DisconnectPayload → Message

-- class RLPEnvelope of handler.py
pub record RlpEnvelope : Type 0 where
  pub protocol : String
  pub version : String
  pub message_type : String
  pub message_id : String
  pub relay_session_id : Option String
  pub source_relay_id : Option String
  pub target_relay_id : Option String
  pub request_id : Option String
  pub execution_id : Option String
  pub payload : Object

pub record Models : Type 0 where
  pub envelope : Object → Checked RlpEnvelope
  pub hello : Object → Checked HelloPayload
  pub bind_session : Object → Checked BindSessionPayload
  pub snapshot : Object → Checked SnapshotPayload
  pub tool_mutation : Object → Checked ToolMutationPayload
  pub tool_removed : Object → Checked ToolRemovedPayload
  pub resource_mutation : Object → Checked ResourceMutationPayload
  pub resource_removed : Object → Checked ResourceRemovedPayload
  pub prompt_mutation : Object → Checked PromptMutationPayload
  pub prompt_removed : Object → Checked PromptRemovedPayload
  pub read_resource : Object → Checked ReadResourcePayload
  pub resource_result : Object → Checked ResourceResultPayload
  pub get_prompt : Object → Checked GetPromptPayload
  pub prompt_result : Object → Checked PromptResultPayload
  pub execute_tool : Object → Checked ExecuteToolPayload
  pub execution_progress : Object → Checked ExecutionProgressPayload
  pub execution_result : Object → Checked ExecutionResultPayload
  pub execution_error : Object → Checked ExecutionErrorPayload
  pub heartbeat : Object → Checked HeartbeatPayload
  pub disconnect : Object → Checked DisconnectPayload

-- MESSAGE_PAYLOAD_MODELS.get(message_type), and model_validate of the class that it gives.
unfoldable pub load : Models → String → Object → Option (Checked Message)
load m t o =
    if t == "hello"
    then some (map_checked hello (m.hello o))
    else if t == "handshake"
    then some (map_checked hello (m.hello o))
    else if t == "bind_session"
    then some (map_checked bind_session (m.bind_session o))
    else if t == "tool_snapshot"
    then some (map_checked snapshot (m.snapshot o))
    else if t == "resource_snapshot"
    then some (map_checked snapshot (m.snapshot o))
    else if t == "prompt_snapshot"
    then some (map_checked snapshot (m.snapshot o))
    else if t == "tool_added"
    then some (map_checked tool_upsert (m.tool_mutation o))
    else if t == "tool_updated"
    then some (map_checked tool_upsert (m.tool_mutation o))
    else if t == "tool_removed"
    then some (map_checked tool_removed (m.tool_removed o))
    else if t == "resource_added"
    then some (map_checked resource_upsert (m.resource_mutation o))
    else if t == "resource_updated"
    then some (map_checked resource_upsert (m.resource_mutation o))
    else if t == "resource_removed"
    then some (map_checked resource_removed (m.resource_removed o))
    else if t == "prompt_added"
    then some (map_checked prompt_upsert (m.prompt_mutation o))
    else if t == "prompt_updated"
    then some (map_checked prompt_upsert (m.prompt_mutation o))
    else if t == "prompt_removed"
    then some (map_checked prompt_removed (m.prompt_removed o))
    else if t == "read_resource"
    then some (map_checked read_resource (m.read_resource o))
    else if t == "resource_result"
    then some (map_checked resource_result (m.resource_result o))
    else if t == "get_prompt"
    then some (map_checked get_prompt (m.get_prompt o))
    else if t == "prompt_result"
    then some (map_checked prompt_result (m.prompt_result o))
    else if t == "execute_tool"
    then some (map_checked execute_tool (m.execute_tool o))
    else if t == "execution_progress"
    then some (map_checked execution_progress (m.execution_progress o))
    else if t == "execution_result"
    then some (map_checked execution_result (m.execution_result o))
    else if t == "execution_error"
    then some (map_checked execution_error (m.execution_error o))
    else if t == "heartbeat"
    then some (map_checked heartbeat (m.heartbeat o))
    else if t == "disconnect_notice"
    then some (map_checked disconnect_notice (m.disconnect o))
    else none
