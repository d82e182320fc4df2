-- ===== src/Registry/Refinement.antt =====
-- A registry as its clients see it: three finite maps, a revision and a flag.
use mathlib.Core.Path.{fun_ext}
use naia_relay.Prelude.{
  ℕ, ◌+◌, ◌≡◌, refl, ap, ◌∙◌, String, Bool, false, List, [], ◌∷◌, Option, none, some, if◌then◌else◌,
  is_some, ◌==◌, Bool-cases, inl, inr,
}
use naia_relay.Prelude.Dict.{lookup, insert, erase, lookup-insert, lookup-erase}
use naia_relay.Registry.Models.{ToolDefinition, ResourceDefinition, PromptDefinition}
use naia_relay.Registry.Store.{
  RegistryStore, register_tool, deregister_tool, register_resource, deregister_resource,
  register_prompt, deregister_prompt, get_tool, get_resource, get_prompt,
}
use naia_relay.Registry.Mutation.{
  Mutation, add_tool, drop_tool, add_resource, drop_resource, add_prompt, drop_prompt, apply, run,
}

pub record View : Type 0 where
  pub revision : ℕ
  pub stale : Bool
  pub tool : String → Option ToolDefinition
  pub resource : String → Option ResourceDefinition
  pub prompt : String → Option PromptDefinition

unfoldable pub view : RegistryStore → View
view s = record {
  revision = s.revision;
  stale = s.stale;
  tool = λ name. get_tool name s;
  resource = λ uri. get_resource uri s;
  prompt = λ name. get_prompt name s;
}

module _ {A : Type 0} where
  -- The map with one key set or cleared.
  unfoldable pub update : String → Option A → (String → Option A) → String → Option A
  update k o f j = if k == j then o else f j

-- What each mutation means on the maps.
unfoldable pub step : Mutation → View → View
step (add_tool t) v =
    if is_some (v.tool t.name)
    then v
    else record v { tool = update t.name (some t) v.tool; revision = v.revision + 1; stale = false }
step (drop_tool name) v =
    if is_some (v.tool name)
    then record v { tool = update name none v.tool; revision = v.revision + 1; stale = false }
    else v
step (add_resource r) v = if is_some (v.resource r.uri) then v else record v {
  resource = update r.uri (some r) v.resource;
  revision = v.revision + 1;
  stale = false;
}
step (drop_resource uri) v =
    if is_some (v.resource uri)
    then record v {
      resource = update uri none v.resource;
      revision = v.revision + 1;
      stale = false;
    }
    else v
step (add_prompt p) v = if is_some (v.prompt p.name) then v else record v {
  prompt = update p.name (some p) v.prompt;
  revision = v.revision + 1;
  stale = false;
}
step (drop_prompt name) v =
    if is_some (v.prompt name)
    then record v { prompt = update name none v.prompt; revision = v.revision + 1; stale = false }
    else v

unfoldable pub steps : List Mutation → View → View
steps [] v = v
steps (m ∷ ms) v = steps ms (step m v)

module _ {A : Type 0} (k : String) (d : List (String × A)) where
  insert-update : (v : A) → (λ j. lookup j (insert k v d)) ≡ update k (some v) (λ j. lookup j d)
  unfolding update
  insert-update v = fun_ext (λ j. lookup-insert k j v d)

  erase-update : (λ j. lookup j (erase k d)) ≡ update k none (λ j. lookup j d)
  unfolding update
  erase-update = fun_ext (λ j. lookup-erase k j d)

-- One mutation of the store is one step of the maps.
pub view-apply : (m : Mutation) (s : RegistryStore) → view (apply m s).1 ≡ step m (view s)
unfolding apply step view get_tool get_resource get_prompt register_tool deregister_tool
    register_resource deregister_resource register_prompt deregister_prompt
view-apply (add_tool t) s = elim (Bool-cases (is_some (lookup t.name s.tools))) [
  | inl taken ↦ rw taken
  | inr free ↦ rw (free, insert-update t.name s.tools t)
]
view-apply (drop_tool name) s = elim (Bool-cases (is_some (lookup name s.tools))) [
  | inl taken ↦ rw (taken, erase-update name s.tools)
  | inr free ↦ rw free
]
view-apply (add_resource r) s = elim (Bool-cases (is_some (lookup r.uri s.resources))) [
  | inl taken ↦ rw taken
  | inr free ↦ rw (free, insert-update r.uri s.resources r)
]
view-apply (drop_resource uri) s = elim (Bool-cases (is_some (lookup uri s.resources))) [
  | inl taken ↦ rw (taken, erase-update uri s.resources)
  | inr free ↦ rw free
]
view-apply (add_prompt p) s = elim (Bool-cases (is_some (lookup p.name s.prompts))) [
  | inl taken ↦ rw taken
  | inr free ↦ rw (free, insert-update p.name s.prompts p)
]
view-apply (drop_prompt name) s = elim (Bool-cases (is_some (lookup name s.prompts))) [
  | inl taken ↦ rw (taken, erase-update name s.prompts)
  | inr free ↦ rw free
]

-- The store refines the maps: after any sequence of mutations, failing ones included, every lookup,
-- the revision and the staleness are those of the maps after the same sequence.
pub view-run : (ms : List Mutation) (s : RegistryStore) → view (run ms s) ≡ steps ms (view s)
unfolding run steps
view-run [] s = refl
view-run (m ∷ ms) s = view-run ms (apply m s).1 ∙ ap (steps ms) (view-apply m s)
