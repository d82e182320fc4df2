-- ===== src/Rlp/Listed.antt =====
-- RLPHandler._build_snapshot_details and the serializers list what a registry holds.
use naia_relay.Prelude.{
  ◌≡◌, refl, String, Bool, ◌++◌, ◌∙◌, Option-cases, sym, inl, inr, Option, none, some, List, [],
  ◌∷◌, map, subst,
}
use naia_relay.Prelude.Dict.{values}
use naia_relay.Json.{Value, Object, get, object, dict, bool}
use naia_relay.Call.{Result, ok, map_result, Result-cases, ok_inj}
use naia_relay.Registry.Models.{ToolDefinition, ResourceDefinition, PromptDefinition}
use naia_relay.Registry.Store.{RegistryStore, snapshot}
use naia_relay.Rlp.Serialize.{
  serialize_tool, serialize_resource, serialize_prompt, serialize_prompt_argument,
  build_snapshot_details, is_required, not_none, unless_none,
}
use naia_relay.Rlp.Details.{
  Each, no_more, and_then, TellsTool, TellsResource, TellsArgument, TellsPrompt, Lists,
}

tells_tool :
    (name description : String) (input_schema metadata : Object) (title : Option String)
    (output_schema : Option Object) (owner : Option String)
    → let tool : ToolDefinition = record {
      name = name;
      description = description;
      input_schema = input_schema;
      title = title;
      output_schema = output_schema;
      metadata = metadata;
      owner_session_id = owner;
    } in
      TellsTool tool (serialize_tool tool)
unfolding serialize_tool get object
tells_tool n d i m none none w = record {
  name = refl;
  description = refl;
  input_schema = refl;
  metadata = refl;
  title = refl;
  output_schema = refl;
}
tells_tool n d i m none (some u) w = record {
  name = refl;
  description = refl;
  input_schema = refl;
  metadata = refl;
  title = refl;
  output_schema = refl;
}
tells_tool n d i m (some t) none w = record {
  name = refl;
  description = refl;
  input_schema = refl;
  metadata = refl;
  title = refl;
  output_schema = refl;
}
tells_tool n d i m (some t) (some u) w = record {
  name = refl;
  description = refl;
  input_schema = refl;
  metadata = refl;
  title = refl;
  output_schema = refl;
}

tells_resource :
    (uri name : String) (description mime_type : Option String) (metadata : Object)
    (owner : Option String)
    → let resource : ResourceDefinition = record {
      uri = uri;
      name = name;
      description = description;
      mime_type = mime_type;
      metadata = metadata;
      owner_session_id = owner;
    } in
      TellsResource resource (serialize_resource resource)
unfolding serialize_resource get object
tells_resource u n none none m w = record {
  uri = refl;
  name = refl;
  metadata = refl;
  description = refl;
  mime_type = refl;
}
tells_resource u n none (some t) m w = record {
  uri = refl;
  name = refl;
  metadata = refl;
  description = refl;
  mime_type = refl;
}
tells_resource u n (some d) none m w = record {
  uri = refl;
  name = refl;
  metadata = refl;
  description = refl;
  mime_type = refl;
}
tells_resource u n (some d) (some t) m w = record {
  uri = refl;
  name = refl;
  metadata = refl;
  description = refl;
  mime_type = refl;
}

-- What a serializer makes of every entry is listed entry by entry.
each_listed :
    {A : Type 0} (Tells : A → Object → Type 0) (serialize : A → Object)
    → ((a : A) → Tells a (serialize a))
    → (xs : List A) → Each Tells xs (map (λ a. dict (serialize a)) xs)
each_listed Tells serialize h [] = no_more
each_listed Tells serialize h (a ∷ xs) = and_then (h a) (each_listed Tells serialize h xs)

-- The same of a serializer that may raise.
each_told :
    {A : Type 0} (Tells : A → Object → Type 0) (serialize : A → Result Object)
    → ((a : A) (o : Object) → serialize a ≡ ok o → Tells a o)
    → (xs : List A) (os : List Object) → map_result serialize xs ≡ ok os
    → Each Tells xs (map dict os)
each_told Tells serialize h [] os e = subst (λ os. Each Tells [] (map dict os)) (ok_inj e) no_more
each_told Tells serialize h (a ∷ xs) os e = elim (Result-cases (serialize a)) [
  | inr (x, f) ↦ absurd (cc (rw f at e))
  | inl (o, f) ↦ elim (Result-cases (map_result serialize xs)) [
    | inr (x, g) ↦ absurd (cc (rw (f, g) at e))
    | inl (rest, g) ↦
        subst (λ os. Each Tells (a ∷ xs) (map dict os)) (ok_inj (rw (f, g) at e))
          (and_then (h a o f) (each_told Tells serialize h xs rest g))
  ]
]

keys_of_argument :
    (name : Value) (required : Bool) (description : Option Value)
    → let o = object (
        (("name", name) ∷ ("required", bool required) ∷ [])
        ++ unless_none "description" description) in
      (get "name" o ≡ some name)
      × (get "required" o ≡ some (bool required))
      × (get "description" o ≡ description)
unfolding get object
keys_of_argument v r none = (refl, refl, refl)
keys_of_argument v r (some d) = (refl, refl, refl)

told_argument :
    (argument o : Object) → serialize_prompt_argument argument ≡ ok o → TellsArgument argument o
unfolding serialize_prompt_argument get object
told_argument argument o = elim (Option-cases (get "name" argument)) [
  | inl h ↦ rw (h, serialize_prompt_argument) (λ e. absurd (cc e))
  | inr (v, h) ↦
      (let (n, r, d) =
          keys_of_argument v (is_required (get "required" argument))
            (not_none (get "description" argument)) in
        rw (h, serialize_prompt_argument)
          (λ e.
            subst (TellsArgument argument) (ok_inj e)
              (record { name = n ∙ sym h; required = r; description = d })))
]

told_prompt :
    (prompt : PromptDefinition) (o : Object) → serialize_prompt prompt ≡ ok o → TellsPrompt prompt o
unfolding serialize_prompt get object
told_prompt prompt o = elim (Result-cases (map_result serialize_prompt_argument prompt.arguments)) [
  | inr (x, f) ↦ rw f (λ e. absurd (cc e))
  | inl (os, f) ↦ rw f (λ e. subst (TellsPrompt prompt) (ok_inj e) (record {
    name = refl;
    description = refl;
    metadata = refl;
    told = map dict os;
    arguments = refl;
    each = each_told TellsArgument serialize_prompt_argument told_argument prompt.arguments os f;
  }))
]

pub build_snapshot_details-Lists :
    (s : RegistryStore) (details : Object) → build_snapshot_details s ≡ ok details → Lists s details
unfolding build_snapshot_details snapshot get object
build_snapshot_details-Lists s details =
    elim (Result-cases (map_result serialize_prompt (values s.prompts))) [
      | inr (x, f) ↦ rw f (λ e. absurd (cc e))
      | inl (os, f) ↦ rw f (λ e. subst (Lists s) (ok_inj e) (record {
        revision = refl;
        told_tools = map (λ tool. dict (serialize_tool tool)) (values s.tools);
        told_resources = map (λ resource. dict (serialize_resource resource)) (values s.resources);
        told_prompts = map dict os;
        tools = refl;
        resources = refl;
        prompts = refl;
        each_tool =
            each_listed TellsTool serialize_tool
              (λ t.
                tells_tool t.name t.description t.input_schema t.metadata t.title t.output_schema
                  t.owner_session_id)
              (values s.tools);
        each_resource =
            each_listed TellsResource serialize_resource
              (λ r.
                tells_resource r.uri r.name r.description r.mime_type r.metadata r.owner_session_id)
              (values s.resources);
        each_prompt = each_told TellsPrompt serialize_prompt told_prompt (values s.prompts) os f;
      }))
    ]
