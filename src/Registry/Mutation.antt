-- ===== src/Registry/Mutation.antt =====
-- The six calls that change a registry one item at a time, as data, so that statements can range
-- over all of them and over sequences of them.
use naia_relay.Prelude.{ℕ, ◌+◌, ◌≡◌, String, Bool, true, false, not, List, [], ◌∷◌, arith, is_some}
use naia_relay.Call.{Call, Result, ok, raised}
use naia_relay.Registry.Models.{ToolDefinition, ResourceDefinition, PromptDefinition}
use naia_relay.Registry.Store.{
  RegistryStore, register_tool, deregister_tool, register_resource, deregister_resource,
  register_prompt, deregister_prompt, get_tool, get_resource, get_prompt,
}

pub data Mutation : Type 0 where
  add_tool : ToolDefinition → Mutation
  drop_tool : String → Mutation
  add_resource : ResourceDefinition → Mutation
  drop_resource : String → Mutation
  add_prompt : PromptDefinition → Mutation
  drop_prompt : String → Mutation

unfoldable pub apply : Mutation → Call RegistryStore ℕ
apply (add_tool tool) = register_tool tool
apply (drop_tool name) = deregister_tool name
apply (add_resource resource) = register_resource resource
apply (drop_resource uri) = deregister_resource uri
apply (add_prompt prompt) = register_prompt prompt
apply (drop_prompt name) = deregister_prompt name

-- An addition wants its key free, a removal wants it taken.
unfoldable pub accepts : Mutation → RegistryStore → Bool
accepts (add_tool tool) s = not (is_some (get_tool tool.name s))
accepts (drop_tool name) s = is_some (get_tool name s)
accepts (add_resource resource) s = not (is_some (get_resource resource.uri s))
accepts (drop_resource uri) s = is_some (get_resource uri s)
accepts (add_prompt prompt) s = not (is_some (get_prompt prompt.name s))
accepts (drop_prompt name) s = is_some (get_prompt name s)

-- How a mutation that began at `s` may end.
abbrev pub Settles : RegistryStore → Bool → Result ℕ × RegistryStore → Type 0
Settles s accepted (ok n, s') =
    (accepted ≡ true) × (n ≡ s.revision + 1) × (s'.revision ≡ n) × (s'.stale ≡ false)
Settles s accepted (raised e, s') = (accepted ≡ false) × (s' ≡ s)

-- Every mutation of a registry returns exactly when its key is free (for an addition) or taken (for
-- a removal); it then returns the new revision, one above the old, and the registry is fresh. Else
-- it raises, and the registry is as it was.
pub apply-Settles : (m : Mutation) (s : RegistryStore) → Settles s (accepts m s) (apply m s)
unfolding apply accepts register_tool deregister_tool register_resource deregister_resource
    register_prompt deregister_prompt get_tool get_resource get_prompt
apply-Settles (add_tool tool) s = ground arith
apply-Settles (drop_tool name) s = ground arith
apply-Settles (add_resource resource) s = ground arith
apply-Settles (drop_resource uri) s = ground arith
apply-Settles (add_prompt prompt) s = ground arith
apply-Settles (drop_prompt name) s = ground arith

-- A run of mutations goes on after one that raises, as a server does.
unfoldable pub run : List Mutation → RegistryStore → RegistryStore
run [] s = s
run (m ∷ ms) s = run ms (apply m s).1
