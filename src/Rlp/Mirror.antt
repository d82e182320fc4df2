-- ===== src/Rlp/Mirror.antt =====
-- A snapshot message makes the mirror a copy of the registry that the payload describes.
use naia_relay.Prelude.{◌≡◌, refl, sym, ap, ◌∙◌, String, false, none, List, [], ◌∷◌, map}
use naia_relay.Prelude.Dict.{Dict, lookup, values, from_values}
use naia_relay.Prelude.Dict.Index.{IsIndexed, from_values-values}
use naia_relay.Json.{empty}
use naia_relay.Errors.{Interpreter}
use naia_relay.Call.{ok}
use naia_relay.Registry.Store.{
  RegistryStore, replace_from_snapshot, get_tool, get_resource, get_prompt,
}
use naia_relay.Registry.Invariant.{IsValid, tool_key, resource_key, prompt_key}
use naia_relay.Registry.Refinement.{view}
use naia_relay.Tep.Handler.{tool_of, resource_of, prompt_of}
use naia_relay.Rlp.Models as Payload
use naia_relay.Rlp.Models.{RlpEnvelope, SnapshotPayload}
use naia_relay.Rlp.Response.{ok_response}
use naia_relay.Prelude.Dict.Maps.{map_option, map_values, lookup-map_values}
use naia_relay.Rlp.Serialize.{snapshot_of}
use naia_relay.Rlp.Following.{Follows, disown, disown_tool, disown_resource, disown_prompt}
use naia_relay.Rlp.Handler.{Handling, Callbacks, identity}
use naia_relay.Rlp.Dispatch.{Ids, dispatch}

-- The payload lists the registry's items in order, without their owners, at its revision.
pub record Describes (p : SnapshotPayload) (s : RegistryStore) : Type 0 where
  pub revision : p.registry_revision ≡ s.revision
  pub tools : map (tool_of none) p.tools ≡ map disown_tool (values s.tools)
  pub resources : map (resource_of none) p.resources ≡ map disown_resource (values s.resources)
  pub prompts : map (prompt_of none) p.prompts ≡ map disown_prompt (values s.prompts)

module _ {V : Type 0} (g : V → V) where
  values-map_values : (d : Dict V) → values (map_values g d) ≡ map g (values d)
  unfolding values map_values
  values-map_values [] = refl
  values-map_values ((k, v) ∷ d) = ap (λ vs. g v ∷ vs) (values-map_values d)

  map_values-IsIndexed :
      (key : V → String)
      → ((v : V) → key (g v) ≡ key v)
      → (d : Dict V) → IsIndexed key d
      → IsIndexed key (map_values g d)
  unfolding map_values
  map_values-IsIndexed key same [] h = tt
  map_values-IsIndexed key same ((k, v) ∷ d) h = (
    h.0 ∙ sym (same v),
    lookup-map_values g k d ∙ ap (map_option g) h.1,
    map_values-IsIndexed key same d h.2,
  )

  lookup-rebuilt :
      (key : V → String) (vs : List V) (d : Dict V) (k : String)
      → ((v : V) → key (g v) ≡ key v)
      → IsIndexed key d
      → vs ≡ map g (values d)
      → lookup k (from_values key vs) ≡ map_option g (lookup k d)
  lookup-rebuilt key vs d k same h e =
      ap (λ us. lookup k (from_values key us)) (e ∙ sym (values-map_values d))
      ∙ ap (lookup k) (from_values-values key (map_values g d) (map_values-IsIndexed key same d h))
      ∙ lookup-map_values g k d

view-mirrored :
    (p : SnapshotPayload) (mirror : RegistryStore) {host : RegistryStore}
    → IsValid host
    → host.stale ≡ false
    → Describes p host
    → view (replace_from_snapshot (snapshot_of p) mirror) ≡ disown (view host)
unfolding replace_from_snapshot view snapshot_of get_tool get_resource get_prompt
view-mirrored p mirror {host} valid fresh d = λ i. record {
  revision = d.revision i;
  stale = sym fresh i;
  tool = λ k.
      lookup-rebuilt disown_tool tool_key (map (tool_of none) p.tools) host.tools k (λ v. refl)
        valid.tools d.tools i;
  resource = λ k.
      lookup-rebuilt disown_resource resource_key (map (resource_of none) p.resources)
        host.resources k (λ v. refl) valid.resources d.resources i;
  prompt = λ k.
      lookup-rebuilt disown_prompt prompt_key (map (prompt_of none) p.prompts) host.prompts k
        (λ v. refl) valid.prompts d.prompts i;
}

module _ {W : Type 0} (callbacks : Callbacks W) (python : Interpreter) (ids : Ids) (e : RlpEnvelope)
    (p : SnapshotPayload) (s : Handling W) {host : RegistryStore} where
  -- A snapshot that describes a fresh, well-formed registry is answered ok and makes the mirror
  -- follow that registry, whatever the mirror held before and whether or not it was stale.
  pub snapshot-Follows :
      IsValid host
      → host.stale ≡ false
      → Describes p host
      → let (r, s') = dispatch callbacks python ids e (Payload.snapshot p) s in
        (r ≡ ok (ok_response ids.response (identity s.handler) e empty)) × Follows s'.registry host
  unfolding dispatch
  snapshot-Follows valid fresh d =
      (refl, record { fresh = fresh; same = view-mirrored p s.registry valid fresh d })
