-- ===== src/Tep/Registration.antt =====
-- What a `register_tools` message does to the registry.
use Prim.Native.String.{◌++◌ as ◌<>◌}
use naia_relay.Prelude.{
  ℕ, ◌+◌, ◌≡◌, refl, sym, subst, String, Option, none, some, List, [], ◌∷◌, ◌++◌, arith, eq_iff,
  length, All, inl, inr, ◌≢◌, ◌⊎◌, ◌∙◌, ap,
}
use naia_relay.Prelude.Dict.{lookup-insert}
use naia_relay.Json.{Object, empty}
use naia_relay.Errors.{Exn, value_error, Interpreter}
use naia_relay.Call.{Call, Result, ok, raised, Result-cases}
use naia_relay.Pydantic.{valid}
use naia_relay.Registry.Models.{ToolDefinition}
use naia_relay.Registry.Store.{RegistryStore, register_tool, get_tool}
use naia_relay.Tep.Loops.{StopsAt, for_each-StopsAt, for_each_keeps}
use naia_relay.Tep.Models as Payload
use naia_relay.Tep.Models.{Models, TepEnvelope, ToolPayload, load}
use naia_relay.Tep.Response.{ok_response, build_validation_error_response}
use naia_relay.Tep.Handler.{
  Handling, Callbacks, tool_of, for_each, dispatch, handle_message_or_error, validate_message,
}

-- The loop of the `register_tools` branch.
abbrev pub register_all : Option String → List ToolPayload → Call RegistryStore Unit
register_all owner = for_each (λ tool. register_tool (tool_of owner tool))

-- A registered tool stays when others are registered.
register_tool_keeps :
    (name : String) (t tool : ToolDefinition) (s : RegistryStore)
    → get_tool name s ≡ some t
    → get_tool name (register_tool tool s).1 ≡ some t
unfolding register_tool get_tool
register_tool_keeps name t tool s h =
    ground (arith, lookup-insert tool.name name tool s.tools, eq_iff tool.name name)

register_all_keeps :
    (owner : Option String) (name : String) (t : ToolDefinition) (tools : List ToolPayload)
    (s : RegistryStore)
    → get_tool name s ≡ some t
    → get_tool name (register_all owner tools s).1 ≡ some t
register_all_keeps owner name t tools s =
    for_each_keeps (λ tool. register_tool (tool_of owner tool)) (λ s. get_tool name s ≡ some t)
      (λ tool s h. register_tool_keeps name t (tool_of owner tool) s h) tools s

register_tool_ok :
    (tool : ToolDefinition) (s : RegistryStore) {n : ℕ}
    → (register_tool tool s).0 ≡ ok n
    → (get_tool tool.name (register_tool tool s).1 ≡ some tool)
      × ((register_tool tool s).1.revision ≡ s.revision + 1)
unfolding register_tool get_tool
register_tool_ok tool s {n} h =
    ground (arith, lookup-insert tool.name tool.name tool s.tools, eq_iff tool.name tool.name)

abbrev pub Holds : RegistryStore → Option String → ToolPayload → Type 0
Holds s owner tool = get_tool tool.name s ≡ some (tool_of owner tool)

register_all-cons :
    (owner : Option String) (tool : ToolPayload) (tools : List ToolPayload) (s : RegistryStore)
    {n : ℕ}
    → (register_tool (tool_of owner tool) s).0 ≡ ok n
    → register_all owner (tool ∷ tools) s
      ≡ register_all owner tools (register_tool (tool_of owner tool) s).1
unfolding for_each
register_all-cons owner tool tools s e = rw e

register_all-cons_raised :
    (owner : Option String) (tool : ToolPayload) (tools : List ToolPayload) (s : RegistryStore)
    {x : Exn}
    → (register_tool (tool_of owner tool) s).0 ≡ raised x
    → (register_all owner (tool ∷ tools) s).0 ≡ raised x
unfolding for_each
register_all-cons_raised owner tool tools s e = rw e

-- All the tools are there, owned by the session, and the revision has moved by their number.
abbrev pub Registered : Option String → List ToolPayload → RegistryStore → RegistryStore → Type 0
Registered owner tools s s' = All (Holds s' owner) tools × (s'.revision ≡ s.revision + length tools)

register_all_ok :
    (owner : Option String) (tools : List ToolPayload) (s : RegistryStore)
    → (register_all owner tools s).0 ≡ ok tt
    → Registered owner tools s (register_all owner tools s).1
register_all_ok owner [] s h = (tt, unfold for_each in omega arith)
register_all_ok owner (tool ∷ tools) s h =
    elim (Result-cases (register_tool (tool_of owner tool) s).0) [
      | inl (n, e) ↦
          let step = register_all-cons owner tool tools s e in
          let (now, one) = register_tool_ok (tool_of owner tool) s e in
          let later = (register_tool (tool_of owner tool) s).1 in
          let (all, more) = register_all_ok owner tools later (rw step at h) in
          subst (λ end. Registered owner (tool ∷ tools) s end.1) (sym step)
            (
              (
                register_all_keeps owner tool.name (tool_of owner tool) tools later
                    (unfold tool_of in now),
                all,
              ),
              omega (arith, one, more),
            )
      | inr (x, e) ↦ cc (register_all-cons_raised owner tool tools s e)
    ]

-- A registration that fails is one of a name that is taken, and leaves the registry alone.
register_tool_refused :
    (tool : ToolDefinition) (s : RegistryStore) {x : Exn}
    → (register_tool tool s).0 ≡ raised x
    → (x ≡ value_error ("Duplicate tool name: " <> tool.name))
      × (get_tool tool.name s ≢ none)
      × ((register_tool tool s).1 ≡ s)
unfolding register_tool get_tool
register_tool_refused tool s {x} h = ground arith

-- The message is a `register_tools` message with this envelope and these tools.
pub record Registers (models : Models) (message : Object) (e : TepEnvelope)
    (tools : List ToolPayload) : Type 0 where
  pub accepted : validate_message models message ≡ ok e
  pub loaded :
      load models e.message_type e.payload
      ≡ some (valid (Payload.register_tools (record { tools = tools })))

module _ {W : Type 0} (callbacks : Callbacks W) (mid : String) (models : Models)
    (python : Interpreter) (message : Object) (e : TepEnvelope) (tools : List ToolPayload) where
  abbrev after : Handling W → Result Object × Handling W
  after = handle_message_or_error callbacks mid models python message

  after-ok :
      (s : Handling W)
      → Registers models message e tools
      → (register_all e.session_id tools s.registry).0 ≡ ok tt
      → after s ≡ (
        ok (ok_response mid e empty),
        record s { registry = (register_all e.session_id tools s.registry).1 },
      )
  unfolding handle_message_or_error dispatch
  after-ok s r h = rw (r.accepted, r.loaded, h)

  after-raised :
      (s : Handling W) (name : String)
      → Registers models message e tools
      → (register_all e.session_id tools s.registry).0
        ≡ raised (value_error ("Duplicate tool name: " <> name))
      → after s ≡ (
        ok (
            build_validation_error_response python mid message
              (value_error ("Duplicate tool name: " <> name))),
        record s { registry = (register_all e.session_id tools s.registry).1 },
      )
  unfolding handle_message_or_error dispatch
  after-raised s name r h = rw (r.accepted, r.loaded, h)

  -- All the tools are registered, and the answer is ok.
  pub record AllIn (s : Handling W) : Type 0 where
    pub registry : RegistryStore
    pub registered : Registered e.session_id tools s.registry registry
    pub answered : after s ≡ (ok (ok_response mid e empty), record s { registry = registry })

  -- The tools before the first taken name are registered, and the answer is the error.
  pub record CutShort (s : Handling W) : Type 0 where
    pub registry : RegistryStore
    pub before : List ToolPayload
    pub tool : ToolPayload
    pub rest : List ToolPayload
    pub split : tools ≡ before ++ tool ∷ rest
    pub exact : registry ≡ (register_all e.session_id before s.registry).1
    pub registered : Registered e.session_id before s.registry registry
    pub taken : get_tool tool.name registry ≢ none
    pub answered : after s ≡ (
      ok (
          build_validation_error_response python mid message
            (value_error ("Duplicate tool name: " <> tool.name))),
      record s { registry = registry },
    )

  cut_short :
      (s : Handling W) {x : Exn}
      → Registers models message e tools
      → StopsAt (λ tool. register_tool (tool_of e.session_id tool)) tools s.registry x
      → (register_all e.session_id tools s.registry).0 ≡ raised x
      → CutShort s
  unfolding tool_of
  cut_short s r stop h =
      let reached = (register_all e.session_id stop.before s.registry).1 in
      let (named, taken, same) =
        register_tool_refused (tool_of e.session_id stop.item) reached stop.stopped in
      record {
        registry = reached;
        before = stop.before;
        tool = stop.item;
        rest = stop.after;
        split = stop.split;
        exact = refl;
        registered = register_all_ok e.session_id stop.before s.registry stop.ran;
        taken = taken;
        answered =
            subst
              (λ t. after s ≡ (
                ok (
                    build_validation_error_response python mid message
                      (value_error ("Duplicate tool name: " <> stop.item.name))),
                record s { registry = t },
              ))
              (stop.left ∙ same) (after-raised s stop.item.name r (h ∙ ap raised named));
      }

  -- A `register_tools` message with an accepted envelope and payload has one of two outcomes. Either
  -- every tool of the list can be looked up under its name with the session as its owner, the
  -- revision has moved by their number and the answer is ok. Or the list is cut at a tool whose name
  -- is taken: what stands before it is registered and stays so, the revision has moved by that
  -- number, the registry is the one that registering just those leaves, and the answer is the error
  -- that names the taken name.
  pub register_tools-outcome :
      (s : Handling W) → Registers models message e tools → AllIn s ⊎ CutShort s
  register_tools-outcome s r = elim (Result-cases (register_all e.session_id tools s.registry).0) [
    | inl (_, h) ↦ inl (record {
      registry = (register_all e.session_id tools s.registry).1;
      registered = register_all_ok e.session_id tools s.registry h;
      answered = after-ok s r h;
    })
    | inr (x, h) ↦ inr (
        cut_short s r
          (for_each-StopsAt (λ tool. register_tool (tool_of e.session_id tool)) tools s.registry h)
          h)
  ]
