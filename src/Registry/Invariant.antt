-- ===== src/Registry/Invariant.antt =====
-- The invariant of a registry: each item is filed under its own name or uri, and none twice.
use naia_relay.Prelude.{String, List, [], ◌∷◌, arith}
use naia_relay.Prelude.Dict.Index.{
  IsIndexed, insert-IsIndexed, erase-IsIndexed, from_values-IsIndexed,
}
use naia_relay.Registry.Models.{RegistryMode, ToolDefinition, ResourceDefinition, PromptDefinition}
use naia_relay.Registry.Store.{
  RegistryStore, new_registry, Snapshot, register_tool, deregister_tool, register_resource,
  deregister_resource, register_prompt, deregister_prompt, replace_from_snapshot,
}
use naia_relay.Registry.Mutation.{
  Mutation, add_tool, drop_tool, add_resource, drop_resource, add_prompt, drop_prompt, apply, run,
}

abbrev pub tool_key : ToolDefinition → String
tool_key tool = tool.name

abbrev pub resource_key : ResourceDefinition → String
resource_key resource = resource.uri

abbrev pub prompt_key : PromptDefinition → String
prompt_key prompt = prompt.name

pub record IsValid (s : RegistryStore) : Type 0 where
  pub tools : IsIndexed tool_key s.tools
  pub resources : IsIndexed resource_key s.resources
  pub prompts : IsIndexed prompt_key s.prompts

pub new_registry-IsValid : (m : RegistryMode) → IsValid (new_registry m)
new_registry-IsValid m = record { tools = tt; resources = tt; prompts = tt }

-- Every mutation, whether it returns or raises, keeps a registry well formed.
pub apply-IsValid : (m : Mutation) {s : RegistryStore} → IsValid s → IsValid (apply m s).1
unfolding apply register_tool deregister_tool register_resource deregister_resource register_prompt
    deregister_prompt
apply-IsValid (add_tool tool) {s} h = ground (arith, insert-IsIndexed tool_key tool s.tools h.tools)
apply-IsValid (drop_tool name) {s} h = ground (arith, erase-IsIndexed tool_key name s.tools h.tools)
apply-IsValid (add_resource resource) {s} h =
    ground (arith, insert-IsIndexed resource_key resource s.resources h.resources)
apply-IsValid (drop_resource uri) {s} h =
    ground (arith, erase-IsIndexed resource_key uri s.resources h.resources)
apply-IsValid (add_prompt prompt) {s} h =
    ground (arith, insert-IsIndexed prompt_key prompt s.prompts h.prompts)
apply-IsValid (drop_prompt name) {s} h =
    ground (arith, erase-IsIndexed prompt_key name s.prompts h.prompts)

-- Every sequence of mutations, failing ones included, keeps a registry well formed.
pub run-IsValid : (ms : List Mutation) {s : RegistryStore} → IsValid s → IsValid (run ms s)
unfolding run
run-IsValid [] h = h
run-IsValid (m ∷ ms) h = run-IsValid ms (apply-IsValid m h)

-- Whatever a snapshot holds, duplicates included, what is rebuilt from it is well formed.
replace_from_snapshot-IsValid :
    (shot : Snapshot) (s : RegistryStore) → IsValid (replace_from_snapshot shot s)
unfolding replace_from_snapshot
replace_from_snapshot-IsValid shot s = record {
  tools = from_values-IsIndexed tool_key shot.tools;
  resources = from_values-IsIndexed resource_key shot.resources;
  prompts = from_values-IsIndexed prompt_key shot.prompts;
}
