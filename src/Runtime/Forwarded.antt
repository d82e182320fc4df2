-- ===== src/Runtime/Forwarded.antt =====
-- A client's request that its host answers: ClientRelayRuntime.call_tool, read_resource and
-- get_prompt against RLPHandler.handle_message and the host's callbacks.
use naia_relay.Prelude.{
  ◌≡◌, refl, ap, ◌∙◌, ◌+◌, if◌then◌else◌, Bool, String, Option, none, some, false, List, [], ◌∷◌,
}
use naia_relay.Json.{Value, Object, get, object, array, str, dict}
use naia_relay.Errors.{Exn, Interpreter}
use naia_relay.Call.{Result, ok, raised, lift, ◌>>=◌}
use naia_relay.Registry.Store.{RegistryStore, get_tool, get_resource, get_prompt}
use naia_relay.Registry.Models.{ToolDefinition, ResourceDefinition, PromptDefinition}
use naia_relay.Tep.Response.{ok_status}
use naia_relay.Rlp.Models.{
  Models, RlpEnvelope, ExecuteToolPayload, ReadResourcePayload, GetPromptPayload,
}
use naia_relay.Rlp.Models as Payload
use naia_relay.Rlp.Handler.{Handling, Callbacks, identity}
use naia_relay.Rlp.Dispatch.{Ids, dispatch, handle_message}
use naia_relay.Rlp.Response.{rlp_reply, ok_response}
use naia_relay.Runtime.Answering.{Reads, handled}
use naia_relay.Runtime.Direct.{look_up, unknown_target, echoed, user_message}
use naia_relay.Runtime.Client.{Link, Requester, stale_registry, on_peer, count}
use naia_relay.Runtime.Forward.{
  forward, request, tool_answer, item_answer, call_tool, read_resource, get_prompt_messages,
}

module _ {P D : Type 0} (python : Interpreter) (before : String) (unknown : Exn)
    (find : String → RegistryStore → Option D) (target alone : Value) (message : Link P → Object)
    (read : Object → Result Value) (s : Link P) where
  -- `forward` by what it tests.
  abbrev forward_by : Bool → Result (Option D) → Option (Requester P) → Result Value × Link P
  forward_by stale found requester =
      if stale
      then (
        raised (stale_registry before),
        count (λ stats. record stats { stale_rejections = stats.stale_rejections + 1 }) s,
      )
      else elim found [
        | raised e ↦ (raised e, s)
        | ok none ↦ (raised unknown, s)
        | ok (some _) ↦ elim requester [
          | none ↦ (ok alone, s)
          | some ask ↦ (on_peer (ask (message s)) >>= λ response. lift (read response)) s
        ]
      ]

  -- What is found in a fresh registry is asked of the host, and its answer is read.
  forward-answered :
      (ask : Requester P) (d : D) (response : Object) (w : P) (v : Value)
      → s.registry.stale ≡ false
      → look_up python find target s.registry ≡ ok (some d)
      → s.upstream_requester ≡ some ask
      → ask (message s) s.peer ≡ (ok response, w)
      → read response ≡ ok v
      → (forward python before unknown find target alone message read s).0 ≡ ok v
  forward-answered ask d response w v fresh found up asked is_read =
      ap (λ b. (forward_by b (look_up python find target s.registry) s.upstream_requester).0) fresh
      ∙ ap (λ l. (forward_by false l s.upstream_requester).0) found
      ∙ ap (λ r. (forward_by false (ok (some d)) r).0) up
      ∙ rw (asked, is_read) refl

module _ {W : Type 0} (callbacks : Callbacks W) (python : Interpreter) (ids : Ids) (models : Models)
    (mid : String) (e : RlpEnvelope) (s : Link (Handling W)) where
  tool_of_details :
      (details : Object)
      → tool_answer python (ok_response ids.response (identity s.peer.handler) e details)
        ≡ ok (dict details)
  unfolding tool_answer ok_response rlp_reply ok_status get object
  tool_of_details details = refl

  -- When the client's registry is fresh and has the tool, and its requester is the handler of a host
  -- whose pydantic reads the request, the client's caller gets what the host's callback returned.
  pub call_tool_roundtrip :
      (execution_id : String) (target arguments : Value) (p : ExecuteToolPayload)
      (tool : ToolDefinition) (f : ExecuteToolPayload → W → Result Object × W) (details : Object)
      (w : W)
      → s.registry.stale ≡ false
      → look_up python get_tool target s.registry ≡ ok (some tool)
      → s.upstream_requester ≡ some (handle_message callbacks python ids models)
      → Reads models
          (request s "execute_tool" mid
            (("execution_id", str execution_id) ∷ [])
            (("tool_name", target) ∷ ("arguments", arguments) ∷ []))
          e
          (Payload.execute_tool p)
      → callbacks.execute_tool ≡ some f
      → f p s.peer.world ≡ (ok details, w)
      → (call_tool python mid execution_id target arguments s).0 ≡ ok (dict details)
  unfolding call_tool dispatch
  call_tool_roundtrip execution_id target arguments p tool f details w fresh found up reads given
        returned =
      forward-answered python "execution"
        (unknown_target python "tool" "unknown_tool" "tool_name" target) get_tool target
        (dict (echoed python target arguments))
        (λ s.
          request s "execute_tool" mid (("execution_id", str execution_id) ∷ [])
            (("tool_name", target) ∷ ("arguments", arguments) ∷ []))
        (tool_answer python) s (handle_message callbacks python ids models) tool
        (ok_response ids.response (identity s.peer.handler) e details) (record s.peer { world = w })
        (dict details) fresh found up
        (handled callbacks python ids models _ _ e (Payload.execute_tool p) s.peer
          (record s.peer { world = w }) reads (rw (given, returned) refl))
        (tool_of_details details)

  contents_of_answer :
      (default target : String) (vs : List Value)
      → item_answer python "contents" default (
          ok_response ids.response
            (identity s.peer.handler)
            e
            (object (("uri", str target) ∷ ("contents", array vs) ∷ [])))
        ≡ ok (array vs)
  unfolding item_answer ok_response rlp_reply ok_status get object
  contents_of_answer default target vs = refl

  messages_of_answer :
      (default target : String) (vs : List Value)
      → item_answer python "messages" default (
          ok_response ids.response
            (identity s.peer.handler)
            e
            (object (("name", str target) ∷ ("messages", array vs) ∷ [])))
        ≡ ok (array vs)
  unfolding item_answer ok_response rlp_reply ok_status get object
  messages_of_answer default target vs = refl

  -- When the client's registry is fresh and has the resource, and its requester is the handler of a
  -- host whose pydantic reads the request, the client's caller gets the contents that the host's
  -- callback returned.
  pub read_resource_roundtrip :
      (target arguments : Value) (p : ReadResourcePayload) (resource : ResourceDefinition)
      (f : ReadResourcePayload → W → Result (List Value) × W) (contents : List Value) (w : W)
      → s.registry.stale ≡ false
      → look_up python get_resource target s.registry ≡ ok (some resource)
      → s.upstream_requester ≡ some (handle_message callbacks python ids models)
      → Reads models
          (request s "read_resource" mid [] (("uri", target) ∷ ("context", arguments) ∷ []))
          e
          (Payload.read_resource p)
      → callbacks.read_resource ≡ some f
      → f p s.peer.world ≡ (ok contents, w)
      → (read_resource python mid target arguments s).0 ≡ ok (array contents)
  unfolding read_resource dispatch
  read_resource_roundtrip target arguments p resource f contents w fresh found up reads given
        returned =
      forward-answered python "reads"
        (unknown_target python "resource" "unknown_resource" "uri" target) get_resource target
        (array (dict (object (("uri", target) ∷ ("arguments", arguments) ∷ [])) ∷ []))
        (λ s. request s "read_resource" mid [] (("uri", target) ∷ ("context", arguments) ∷ []))
        (item_answer python "contents" "Upstream resource read failed") s
        (handle_message callbacks python ids models) resource
        (ok_response ids.response (identity s.peer.handler) e
          (object (("uri", str p.uri) ∷ ("contents", array contents) ∷ [])))
        (record s.peer { world = w }) (array contents) fresh found up
        (handled callbacks python ids models _ _ e (Payload.read_resource p) s.peer
          (record s.peer { world = w }) reads (rw (given, returned) refl))
        (contents_of_answer "Upstream resource read failed" p.uri contents)

  -- When the client's registry is fresh and has the prompt, and its requester is the handler of a
  -- host whose pydantic reads the request, the client's caller gets the messages that the host's
  -- callback returned.
  pub get_prompt_roundtrip :
      (target arguments : Value) (p : GetPromptPayload) (prompt : PromptDefinition)
      (f : GetPromptPayload → W → Result (List Value) × W) (messages : List Value) (w : W)
      → s.registry.stale ≡ false
      → look_up python get_prompt target s.registry ≡ ok (some prompt)
      → s.upstream_requester ≡ some (handle_message callbacks python ids models)
      → Reads models
          (request s "get_prompt" mid [] (("name", target) ∷ ("arguments", arguments) ∷ []))
          e
          (Payload.get_prompt p)
      → callbacks.get_prompt ≡ some f
      → f p s.peer.world ≡ (ok messages, w)
      → (get_prompt_messages python mid target arguments s).0 ≡ ok (array messages)
  unfolding get_prompt_messages dispatch
  get_prompt_roundtrip target arguments p prompt f messages w fresh found up reads given returned =
      forward-answered python "prompts"
        (unknown_target python "prompt" "unknown_prompt" "name" target) get_prompt target
        (user_message target arguments)
        (λ s. request s "get_prompt" mid [] (("name", target) ∷ ("arguments", arguments) ∷ []))
        (item_answer python "messages" "Upstream prompt retrieval failed") s
        (handle_message callbacks python ids models) prompt
        (ok_response ids.response (identity s.peer.handler) e
          (object (("name", str p.name) ∷ ("messages", array messages) ∷ [])))
        (record s.peer { world = w }) (array messages) fresh found up
        (handled callbacks python ids models _ _ e (Payload.get_prompt p) s.peer
          (record s.peer { world = w }) reads (rw (given, returned) refl))
        (messages_of_answer "Upstream prompt retrieval failed" p.name messages)
