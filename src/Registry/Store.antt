-- ===== src/Registry/Store.antt =====
-- src/naia_relay/registry/store.py: the store of tools, resources and prompts. `deepcopy` is the
-- identity here: values of the model are not shared.
use naia_relay.Prelude.{ℕ, ◌+◌, String, Bool, true, false, List, [], Option, if◌then◌else◌}
use naia_relay.Prelude.Dict.{Dict, lookup, contains, insert, erase, values, from_values}
use naia_relay.Errors.{value_error, key_error}
use naia_relay.Call.{Call, ok, raised}
use naia_relay.Registry.Models.{RegistryMode, ToolDefinition, ResourceDefinition, PromptDefinition}
use Prim.Native.String.{◌++◌ as ◌<>◌}

pub record RegistryStore : Type 0 where
  pub mode : RegistryMode
  pub revision : ℕ
  pub stale : Bool
  pub tools : Dict ToolDefinition
  pub resources : Dict ResourceDefinition
  pub prompts : Dict PromptDefinition

-- RegistryStore(mode)
abbrev pub new_registry : RegistryMode → RegistryStore
new_registry m = record {
  mode = m;
  revision = 0;
  stale = false;
  tools = [];
  resources = [];
  prompts = [];
}

unfoldable pub bump_revision : Call RegistryStore ℕ
bump_revision s = (ok (s.revision + 1), record s { revision = s.revision + 1; stale = false })

unfoldable pub mark_stale : RegistryStore → RegistryStore
mark_stale s = record s { stale = true }

unfoldable pub mark_fresh : RegistryStore → RegistryStore
mark_fresh s = record s { stale = false }

unfoldable pub register_tool : ToolDefinition → Call RegistryStore ℕ
unfolding bump_revision contains
register_tool tool s =
    if contains tool.name s.tools
    then (raised (value_error ("Duplicate tool name: " <> tool.name)), s)
    else bump_revision (record s { tools = insert tool.name tool s.tools })

-- `pop` with no default raises before the revision moves.
unfoldable pub deregister_tool : String → Call RegistryStore ℕ
unfolding bump_revision contains
deregister_tool name s =
    if contains name s.tools
    then bump_revision (record s { tools = erase name s.tools })
    else (raised (key_error name), s)

unfoldable pub register_resource : ResourceDefinition → Call RegistryStore ℕ
unfolding bump_revision contains
register_resource resource s =
    if contains resource.uri s.resources
    then (raised (value_error ("Duplicate resource uri: " <> resource.uri)), s)
    else bump_revision (record s { resources = insert resource.uri resource s.resources })

unfoldable pub deregister_resource : String → Call RegistryStore ℕ
unfolding bump_revision contains
deregister_resource uri s =
    if contains uri s.resources
    then bump_revision (record s { resources = erase uri s.resources })
    else (raised (key_error uri), s)

unfoldable pub register_prompt : PromptDefinition → Call RegistryStore ℕ
unfolding bump_revision contains
register_prompt prompt s =
    if contains prompt.name s.prompts
    then (raised (value_error ("Duplicate prompt name: " <> prompt.name)), s)
    else bump_revision (record s { prompts = insert prompt.name prompt s.prompts })

unfoldable pub deregister_prompt : String → Call RegistryStore ℕ
unfolding bump_revision contains
deregister_prompt name s =
    if contains name s.prompts
    then bump_revision (record s { prompts = erase name s.prompts })
    else (raised (key_error name), s)

unfoldable pub get_tool : String → RegistryStore → Option ToolDefinition
get_tool name s = lookup name s.tools

unfoldable pub get_resource : String → RegistryStore → Option ResourceDefinition
get_resource uri s = lookup uri s.resources

unfoldable pub get_prompt : String → RegistryStore → Option PromptDefinition
get_prompt name s = lookup name s.prompts

-- The dict that `snapshot` returns and `replace_from_snapshot` takes. Its lists hold values of
-- these classes only, so the `isinstance` filters of the source keep everything.
pub record Snapshot : Type 0 where
  pub revision : ℕ
  pub tools : List ToolDefinition
  pub resources : List ResourceDefinition
  pub prompts : List PromptDefinition

unfoldable pub snapshot : RegistryStore → Snapshot
snapshot s = record {
  revision = s.revision;
  tools = values s.tools;
  resources = values s.resources;
  prompts = values s.prompts;
}

unfoldable pub replace_from_snapshot : Snapshot → RegistryStore → RegistryStore
replace_from_snapshot shot s = record s {
  tools = from_values (λ tool. tool.name) shot.tools;
  resources = from_values (λ resource. resource.uri) shot.resources;
  prompts = from_values (λ prompt. prompt.name) shot.prompts;
  revision = shot.revision;
  stale = false;
}
