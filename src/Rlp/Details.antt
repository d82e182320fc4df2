-- ===== src/Rlp/Details.antt =====
-- What the details of a bind response list: the registry that RLPHandler._build_snapshot_details
-- serializes, entry by entry.
use naia_relay.Prelude.{◌≡◌, some, List, [], ◌∷◌}
use naia_relay.Prelude.Dict.{values}
use naia_relay.Prelude.Dict.Maps.{map_option}
use naia_relay.Json.{Value, Object, get, array, str, dict, nat, bool}
use naia_relay.Registry.Models.{ToolDefinition, ResourceDefinition, PromptDefinition}
use naia_relay.Registry.Store.{RegistryStore}
use naia_relay.Rlp.Serialize.{is_required, not_none}

-- A JSON object with the as of a tool; a title or an output schema only if the tool has one.
pub record TellsTool (tool : ToolDefinition) (o : Object) : Type 0 where
  pub name : get "name" o ≡ some (str tool.name)
  pub description : get "description" o ≡ some (str tool.description)
  pub input_schema : get "input_schema" o ≡ some (dict tool.input_schema)
  pub metadata : get "metadata" o ≡ some (dict tool.metadata)
  pub title : get "title" o ≡ map_option str tool.title
  pub output_schema : get "output_schema" o ≡ map_option dict tool.output_schema

pub record TellsResource (resource : ResourceDefinition) (o : Object) : Type 0 where
  pub uri : get "uri" o ≡ some (str resource.uri)
  pub name : get "name" o ≡ some (str resource.name)
  pub metadata : get "metadata" o ≡ some (dict resource.metadata)
  pub description : get "description" o ≡ map_option str resource.description
  pub mime_type : get "mime_type" o ≡ map_option str resource.mime_type

pub record TellsArgument (argument : Object) (o : Object) : Type 0 where
  pub name : get "name" o ≡ get "name" argument
  pub required : get "required" o ≡ some (bool (is_required (get "required" argument)))
  pub description : get "description" o ≡ not_none (get "description" argument)

-- Entry by entry, in the same order, and nothing more.
pub data Each {A : Type 0} (Tells : A → Object → Type 0) : List A → List Value → Type 0 where
  no_more : Each Tells [] []
  and_then :
      {a : A} {o : Object} {xs : List A} {vs : List Value}
      → Tells a o
      → Each Tells xs vs
      → Each Tells (a ∷ xs) (dict o ∷ vs)

pub record TellsPrompt (prompt : PromptDefinition) (o : Object) : Type 0 where
  pub name : get "name" o ≡ some (str prompt.name)
  pub description : get "description" o ≡ some (str prompt.description)
  pub metadata : get "metadata" o ≡ some (dict prompt.metadata)
  pub told : List Value
  pub arguments : get "arguments" o ≡ some (array told)
  pub each : Each TellsArgument prompt.arguments told

-- The revision, and every tool, resource and prompt of the registry, in the registry's order.
pub record Lists (s : RegistryStore) (details : Object) : Type 0 where
  pub revision : get "registry_revision" details ≡ some (nat s.revision)
  pub told_tools : List Value
  pub told_resources : List Value
  pub told_prompts : List Value
  pub tools : get "tools" details ≡ some (array told_tools)
  pub resources : get "resources" details ≡ some (array told_resources)
  pub prompts : get "prompts" details ≡ some (array told_prompts)
  pub each_tool : Each TellsTool (values s.tools) told_tools
  pub each_resource : Each TellsResource (values s.resources) told_resources
  pub each_prompt : Each TellsPrompt (values s.prompts) told_prompts
