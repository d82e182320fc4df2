-- ===== src/Registry/Models.antt =====
-- src/naia_relay/registry/models.py: what a registry holds. A free-form dict is an `Object`.
use naia_relay.Prelude.{String, Option, List}
use naia_relay.Json.{Object}

pub data RegistryMode : Type 0 where
  authoritative mirrored : RegistryMode

pub record ToolDefinition : Type 0 where
  pub name : String
  pub description : String
  pub input_schema : Object
  pub title : Option String
  pub output_schema : Option Object
  pub metadata : Object
  pub owner_session_id : Option String

pub record ResourceDefinition : Type 0 where
  pub uri : String
  pub name : String
  pub description : Option String
  pub mime_type : Option String
  pub metadata : Object
  pub owner_session_id : Option String

pub record PromptDefinition : Type 0 where
  pub name : String
  pub description : String
  pub arguments : List Object
  pub metadata : Object
  pub owner_session_id : Option String
