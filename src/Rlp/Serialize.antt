-- ===== src/Rlp/Serialize.antt =====
-- src/naia_relay/protocols/rlp/handler.py: a registry as the details of a bind response, and a
-- snapshot payload as a registry's snapshot. Both directions of the mirroring.
use naia_relay.Prelude.{String, Bool, Option, none, some, List, [], ◌∷◌, ◌++◌, map}
use naia_relay.Prelude.Dict.Maps.{map_option}
use naia_relay.Json.{Value, Object, object, array, bool, nat, str, dict, null, get, truthy}
use naia_relay.Errors.{key_error}
use naia_relay.Call.{Result, ok, raised, map_result, map_ok}
use naia_relay.Registry.Models.{ToolDefinition, ResourceDefinition, PromptDefinition}
use naia_relay.Registry.Store.{RegistryStore, Snapshot, snapshot}
use naia_relay.Tep.Handler.{tool_of, resource_of, prompt_of}
use naia_relay.Rlp.Models.{SnapshotPayload}

-- if x is not None: payload[key] = x
abbrev pub unless_none : String → Option Value → List (String × Value)
unless_none key none = []
unless_none key (some v) = (key, v) ∷ []

unfoldable pub serialize_tool : ToolDefinition → Object
unfolding object
serialize_tool tool = object (
    (("name", str tool.name)
      ∷ ("description", str tool.description)
      ∷ ("input_schema", dict tool.input_schema)
      ∷ ("metadata", dict tool.metadata)
      ∷ [])
    ++ unless_none "title" (map_option str tool.title)
    ++ unless_none "output_schema" (map_option dict tool.output_schema))

unfoldable pub serialize_resource : ResourceDefinition → Object
unfolding object
serialize_resource resource = object (
    (("uri", str resource.uri)
      ∷ ("name", str resource.name)
      ∷ ("metadata", dict resource.metadata)
      ∷ [])
    ++ unless_none "description" (map_option str resource.description)
    ++ unless_none "mime_type" (map_option str resource.mime_type))

-- A value that is there and is not None.
abbrev pub not_none : Option Value → Option Value
not_none (some null) = none
not_none o = o

-- bool(argument.get("required", False))
abbrev pub is_required : Option Value → Bool
is_required none = Bool.false
is_required (some v) = truthy v

-- argument["name"] raises if the key is missing.
unfoldable pub serialize_prompt_argument : Object → Result Object
unfolding get object truthy
serialize_prompt_argument argument = elim (get "name" argument) [
  | none ↦ raised (key_error "name")
  | some name ↦ ok (
      object (
        (("name", name) ∷ ("required", bool (is_required (get "required" argument))) ∷ [])
        ++ unless_none "description" (not_none (get "description" argument))))
]

unfoldable pub serialize_prompt : PromptDefinition → Result Object
unfolding serialize_prompt_argument object array
serialize_prompt prompt =
    map_ok
      (λ arguments. object (
        ("name", str prompt.name)
        ∷ ("description", str prompt.description)
        ∷ ("arguments", array (map dict arguments))
        ∷ ("metadata", dict prompt.metadata)
        ∷ []))
      (map_result serialize_prompt_argument prompt.arguments)

unfoldable pub build_snapshot_details : RegistryStore → Result Object
unfolding snapshot serialize_tool serialize_resource serialize_prompt object array
build_snapshot_details s =
    let shot = snapshot s in
    map_ok
      (λ prompts. object (
        ("registry_revision", nat shot.revision)
        ∷ ("tools", array (map (λ tool. dict (serialize_tool tool)) shot.tools))
        ∷ ("resources", array (map (λ resource. dict (serialize_resource resource)) shot.resources))
        ∷ ("prompts", array (map dict prompts))
        ∷ []))
      (map_result serialize_prompt shot.prompts)

-- The snapshot that `_replace_registry_from_snapshot` builds from a payload. It names no owner.
unfoldable pub snapshot_of : SnapshotPayload → Snapshot
unfolding tool_of resource_of prompt_of
snapshot_of p = record {
  revision = p.registry_revision;
  tools = map (tool_of none) p.tools;
  resources = map (resource_of none) p.resources;
  prompts = map (prompt_of none) p.prompts;
}
