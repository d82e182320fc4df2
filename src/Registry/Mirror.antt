-- ===== src/Registry/Mirror.antt =====
-- A mirrored registry is rebuilt from the snapshot of another.
use naia_relay.Prelude.{◌+◌, ◌≡◌, false, none, arith, eq_refl}
use naia_relay.Prelude.Dict.{lookup-insert}
use naia_relay.Prelude.Dict.Index.{from_values-values}
use naia_relay.Prelude.Dict.Laws.{erase-insert_new}
use naia_relay.Call.{ok}
use naia_relay.Registry.Models.{ToolDefinition}
use naia_relay.Registry.Store.{
  RegistryStore, snapshot, replace_from_snapshot, register_tool, deregister_tool, get_tool,
}
use naia_relay.Registry.Invariant.{IsValid, tool_key, resource_key, prompt_key}

-- Rebuilding any registry from the snapshot of a well-formed one makes it equal to that one, order
-- and revision included; it keeps only its own mode, and it is fresh.
pub replace_from_snapshot-snapshot :
    (mirror s : RegistryStore)
    → IsValid s
    → replace_from_snapshot (snapshot s) mirror ≡ record s { mode = mirror.mode; stale = false }
unfolding replace_from_snapshot snapshot
replace_from_snapshot-snapshot mirror s h = rw (
  from_values-values tool_key s.tools h.tools,
  from_values-values resource_key s.resources h.resources,
  from_values-values prompt_key s.prompts h.prompts,
)

-- A new tool that is registered and deregistered leaves the registry's items as they were, and the
-- revision two higher.
deregister_tool-register_tool :
    (tool : ToolDefinition) (s : RegistryStore)
    → get_tool tool.name s ≡ none
    → deregister_tool tool.name (register_tool tool s).1
      ≡ (ok (s.revision + 2), record s { revision = s.revision + 2; stale = false })
unfolding deregister_tool register_tool get_tool
deregister_tool-register_tool tool s h = ground (
  arith,
  lookup-insert tool.name tool.name tool s.tools,
  eq_refl tool.name,
  erase-insert_new tool.name tool s.tools h,
)
