-- ===== src/Rlp/Following.antt =====
-- A mirror that applies the host's events in order follows the host's registry.
use naia_relay.Prelude.{
  ℕ, ◌+◌, ◌≡◌, refl, sym, ap, ◌∙◌, String, true, false, Option, none, some, Option-cases, inl, inr,
  List, [], ◌∷◌, arith,
}
use naia_relay.Call.{Call}
use naia_relay.Registry.Models.{ToolDefinition, ResourceDefinition, PromptDefinition}
use naia_relay.Registry.Store.{
  RegistryStore, deregister_tool, deregister_resource, deregister_prompt, mark_fresh,
}
use naia_relay.Registry.Mutation.{
  Mutation, add_tool, drop_tool, add_resource, drop_resource, add_prompt, drop_prompt, apply,
  accepts, apply-Settles,
}
use naia_relay.Registry.Refinement.{View, view, step, update, view-apply}
use mathlib.Core.Path.{fun_ext}
use naia_relay.Tep.Models.{ToolPayload, ResourcePayload, PromptPayload}
use naia_relay.Tep.Handler.{tool_of, resource_of, prompt_of}
use naia_relay.Rlp.Models.{RlpEnvelope}
use naia_relay.Prelude.Dict.Maps.{map_option}
use naia_relay.Rlp.Response.{Identity}
use naia_relay.Rlp.Handler.{incremental, upsert_tool, upsert_resource, upsert_prompt}
use naia_relay.Rlp.Incremental.{next_applied}

-- A change of the host's registry that an incremental event can carry.
pub data Event : Type 0 where
  tool_added : ToolPayload → Event
  tool_removed : String → Event
  resource_added : ResourcePayload → Event
  resource_removed : String → Event
  prompt_added : PromptPayload → Event
  prompt_removed : String → Event

-- What the host did, on behalf of an executor's session.
abbrev pub mutation : Option String → Event → Mutation
mutation owner (tool_added tool) = add_tool (tool_of owner tool)
mutation owner (tool_removed name) = drop_tool name
mutation owner (resource_added resource) = add_resource (resource_of owner resource)
mutation owner (resource_removed uri) = drop_resource uri
mutation owner (prompt_added prompt) = add_prompt (prompt_of owner prompt)
mutation owner (prompt_removed name) = drop_prompt name

-- What the branch of the event's message does to the mirror's registry.
abbrev pub change : Event → Call RegistryStore ℕ
change (tool_added tool) = upsert_tool tool
change (tool_removed name) = deregister_tool name
change (resource_added resource) = upsert_resource resource
change (resource_removed uri) = deregister_resource uri
change (prompt_added prompt) = upsert_prompt prompt
change (prompt_removed name) = deregister_prompt name

abbrev pub disown_tool : ToolDefinition → ToolDefinition
disown_tool tool = record tool { owner_session_id = none }

abbrev pub disown_resource : ResourceDefinition → ResourceDefinition
disown_resource resource = record resource { owner_session_id = none }

abbrev pub disown_prompt : PromptDefinition → PromptDefinition
disown_prompt prompt = record prompt { owner_session_id = none }

-- A view with the owners taken out.
abbrev pub disown : View → View
disown v = record v {
  tool = λ k. map_option disown_tool (v.tool k);
  resource = λ k. map_option disown_resource (v.resource k);
  prompt = λ k. map_option disown_prompt (v.prompt k);
}

-- Both are fresh, at one revision, and the mirror has the host's items up to their owners.
pub record Follows (mirror host : RegistryStore) : Type 0 where
  pub fresh : host.stale ≡ false
  pub same : view mirror ≡ disown (view host)

update-map :
    {A : Type 0} (g : A → A) (k : String) (o : Option A) (f : String → Option A)
    → update k (map_option g o) (λ j. map_option g (f j)) ≡ (λ j. map_option g (update k o f j))
unfolding update
update-map g k o f = fun_ext (λ j. ground arith)

-- A step of the maps commutes with taking the owners out.
step-disown :
    (owner : Option String) (ev : Event) (v : View)
    → step (mutation none ev) (disown v) ≡ disown (step (mutation owner ev) v)
unfolding step tool_of resource_of prompt_of
step-disown owner (tool_added tool) v = elim (Option-cases (v.tool tool.name)) [
  | inl free ↦ rw free (rw (update-map disown_tool tool.name (some (tool_of owner tool)) v.tool))
  | inr (t, taken) ↦ rw taken
]
step-disown owner (tool_removed name) v = elim (Option-cases (v.tool name)) [
  | inl absent ↦ rw absent
  | inr (t, there) ↦ rw there (rw (update-map disown_tool name none v.tool))
]
step-disown owner (resource_added resource) v = elim (Option-cases (v.resource resource.uri)) [
  | inl free ↦
      rw free (
        rw (update-map disown_resource resource.uri (some (resource_of owner resource)) v.resource))
  | inr (t, taken) ↦ rw taken
]
step-disown owner (resource_removed uri) v = elim (Option-cases (v.resource uri)) [
  | inl absent ↦ rw absent
  | inr (t, there) ↦ rw there (rw (update-map disown_resource uri none v.resource))
]
step-disown owner (prompt_added prompt) v = elim (Option-cases (v.prompt prompt.name)) [
  | inl free ↦
      rw free (rw (update-map disown_prompt prompt.name (some (prompt_of owner prompt)) v.prompt))
  | inr (t, taken) ↦ rw taken
]
step-disown owner (prompt_removed name) v = elim (Option-cases (v.prompt name)) [
  | inl absent ↦ rw absent
  | inr (t, there) ↦ rw there (rw (update-map disown_prompt name none v.prompt))
]

-- An upsert of what is not there is an addition, so the mirror runs the host's mutation.
change-apply :
    (owner : Option String) (ev : Event) (mirror host : RegistryStore)
    → view mirror ≡ disown (view host)
    → accepts (mutation owner ev) host ≡ true
    → change ev mirror ≡ apply (mutation none ev) mirror
unfolding apply accepts upsert_tool upsert_resource upsert_prompt view tool_of resource_of prompt_of
change-apply owner (tool_added tool) mirror host f h = ground (arith, ap (λ v. v.tool tool.name) f)
change-apply owner (resource_added resource) mirror host f h =
    ground (arith, ap (λ v. v.resource resource.uri) f)
change-apply owner (prompt_added prompt) mirror host f h =
    ground (arith, ap (λ v. v.prompt prompt.name) f)
change-apply owner (tool_removed name) mirror host f h = refl
change-apply owner (resource_removed uri) mirror host f h = refl
change-apply owner (prompt_removed name) mirror host f h = refl

mark_fresh-view : {mirror host : RegistryStore} → Follows mirror host → mark_fresh mirror ≡ mirror
unfolding mark_fresh view
mark_fresh-view {mirror} f = λ i. record mirror { stale = stale i }
  where
    stale : false ≡ mirror.stale
    stale = sym (ap (λ v. v.stale) f.same ∙ f.fresh)

apply-fresh :
    (m : Mutation) (host : RegistryStore) → accepts m host ≡ true → (apply m host).1.stale ≡ false
apply-fresh m host h = ground (arith, apply-Settles m host)

announced :
    (m : Mutation) {mirror host : RegistryStore}
    → Follows mirror host
    → accepts m host ≡ true
    → (apply m host).1.revision ≡ mirror.revision + 1
unfolding view
announced m {mirror} {host} f h = ground (arith, apply-Settles m host, ap (λ v. v.revision) f.same)

module _ (mid gid : String) (self : Identity) (e : RlpEnvelope) (owner : Option String) where
  -- The mirror after the event that announces the host's new revision.
  abbrev pub hear : Event → RegistryStore → RegistryStore → RegistryStore
  hear ev host mirror =
      (incremental mid gid self e (apply (mutation owner ev) host).1.revision (change ev) mirror).1

  heard :
      (ev : Event) {mirror host : RegistryStore}
      → Follows mirror host
      → accepts (mutation owner ev) host ≡ true
      → hear ev host mirror ≡ (apply (mutation none ev) mirror).1
  heard ev {mirror} {host} f h =
      ap (λ n. (incremental mid gid self e n (change ev) mirror).1)
        (announced (mutation owner ev) f h)
      ∙ ap (λ r. r.1) (next_applied mid gid self e (change ev) mirror)
      ∙ ap (λ r. (change ev r).1) (mark_fresh-view f)
      ∙ ap (λ r. r.1) (change-apply owner ev mirror host f.same h)

  follow_one :
      (ev : Event) {mirror host : RegistryStore}
      → Follows mirror host
      → accepts (mutation owner ev) host ≡ true
      → Follows (hear ev host mirror) (apply (mutation owner ev) host).1
  follow_one ev {mirror} {host} f h = record {
    fresh = apply-fresh (mutation owner ev) host h;
    same =
        ap view (heard ev f h)
        ∙ view-apply (mutation none ev) mirror
        ∙ ap (step (mutation none ev)) f.same
        ∙ step-disown owner ev (view host)
        ∙ ap disown (sym (view-apply (mutation owner ev) host));
  }

  -- The host after a sequence of changes, and the mirror after their events.
  unfoldable pub host_after : List Event → RegistryStore → RegistryStore
  host_after [] host = host
  host_after (ev ∷ evs) host = host_after evs (apply (mutation owner ev) host).1

  unfoldable pub mirror_after : List Event → RegistryStore → RegistryStore → RegistryStore
  mirror_after [] host mirror = mirror
  mirror_after (ev ∷ evs) host mirror =
      mirror_after evs (apply (mutation owner ev) host).1 (hear ev host mirror)

  -- The host accepts each change where it comes.
  abbrev pub AllAccepted : List Event → RegistryStore → Type 0
  AllAccepted [] host = Unit
  AllAccepted (ev ∷ evs) host =
      (accepts (mutation owner ev) host ≡ true) × AllAccepted evs (apply (mutation owner ev) host).1

  -- A mirror that follows the host, and that hears in order of each addition and each removal that
  -- the host accepts, follows the host after any sequence of them: it is fresh, at the host's
  -- revision, and has the host's tools, resources and prompts up to their owners.
  pub mirror_after-Follows :
      (evs : List Event) {mirror host : RegistryStore}
      → Follows mirror host
      → AllAccepted evs host
      → Follows (mirror_after evs host mirror) (host_after evs host)
  unfolding mirror_after host_after
  mirror_after-Follows [] f h = f
  mirror_after-Follows (ev ∷ evs) f h = mirror_after-Follows evs (follow_one ev f h.0) h.1
