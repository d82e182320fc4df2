-- ===== src/Runtime/Forward.antt =====
-- src/naia_relay/runtime/relay.py: ClientRelayRuntime.call_tool, read_resource and get_prompt. A
-- ProtocolError whose message the host gives as no text keeps the text of it.
use naia_relay.Prelude.{◌+◌, String, Option, none, some, List, [], ◌∷◌, if◌then◌else◌, ◌++◌}
use naia_relay.Json.{Value, Object, object, array, str, dict, get, empty, is_text}
use naia_relay.Errors.{Exn, protocol_error, Interpreter, to_text}
use naia_relay.Call.{Call, Result, ok, raised, lift, ◌>>=◌}
use naia_relay.Registry.Store.{RegistryStore, get_tool, get_resource, get_prompt}
use naia_relay.Runtime.Direct.{look_up, unknown_target, echoed, user_message}
use naia_relay.Runtime.Client.{Link, count, on_peer, at, stale_registry}

-- The keys that every forwarded request has, around its own.
abbrev pub request :
    {P : Type 0} → Link P → String → String → List (String × Value) → List (String × Value) → Object
request s kind mid extra payload = object (
    ("protocol", str "rlp")
      ∷ ("version", str "1.0")
      ∷ ("message_type", str kind)
      ∷ ("message_id", str mid)
      ∷ ("relay_session_id", str s.rlp_handler.relay_session_id)
      ∷ ("source_relay_id", str s.base.relay_id)
      ∷ extra
    ++ ("payload", dict (object payload)) ∷ [])

-- o.get(key, default)
abbrev pub get_or : String → Value → Object → Value
get_or key default o = elim (get key o) [ none ↦ default | some v ↦ v ]

module _ (python : Interpreter) where
  -- str(payload.get("code", "upstream_error"))
  abbrev pub upstream_error : String → Object → Object → Exn
  upstream_error default payload details = protocol_error (record {
    message = to_text python (get_or "message" (str default) payload);
    code = to_text python (get_or "code" (str "upstream_error") payload);
    error_data = dict details;
  })

  -- A failed execution whose details hold a result is answered with it.
  unfoldable pub failed_execution : Object → Result Value
  unfolding get
  failed_execution payload = elim (get_or "details" (dict empty) payload) [
    | dict details ↦ elim (get "result" details) [
      | some (dict result) ↦ ok (dict result)
      | _ ↦ raised (upstream_error "Upstream tool execution failed" payload details)
    ]
    | _ ↦ raised (upstream_error "Upstream tool execution failed" payload empty)
  ]

  -- What the three methods read from a response.
  abbrev pub payload_of : Object → (Value → Result Value) → (Object → Result Value) → Result Value
  payload_of response accept refuse = elim (at python "payload" (dict response)) [
    | raised e ↦ raised e
    | ok payload ↦ elim (at python "status" payload) [
      | raised e ↦ raised e
      | ok status ↦
          if is_text "ok" (some status)
          then accept payload
          else elim payload [ dict o ↦ refuse o | v ↦ at python "status" v ]
    ]
  ]

  abbrev pub and_then : Result Value → (Value → Result Value) → Result Value
  and_then (ok v) f = f v
  and_then (raised e) f = raised e

  unfoldable pub tool_answer : Object → Result Value
  unfolding get failed_execution
  tool_answer response = payload_of response (at python "details") failed_execution

  -- response["payload"]["details"][key]
  unfoldable pub item_answer : String → String → Object → Result Value
  unfolding get
  item_answer key default response =
      payload_of response (λ payload. and_then (at python "details" payload) (at python key))
        (λ payload. raised (upstream_error default payload empty))

module _ {P : Type 0} (python : Interpreter) where
  -- What the three methods share: the staleness test, the lookup, and the requester if there is one.
  abbrev pub forward :
      {D : Type 0}
      → String
      → Exn
      → (String → RegistryStore → Option D)
      → Value
      → Value
      → (Link P → Object)
      → (Object → Result Value)
      → Call (Link P) Value
  forward before unknown find target alone message read s =
      if s.registry.stale
      then (
        raised (stale_registry before),
        count (λ stats. record stats { stale_rejections = stats.stale_rejections + 1 }) s,
      )
      else elim (look_up python find target s.registry) [
        | raised e ↦ (raised e, s)
        | ok none ↦ (raised unknown, s)
        | ok (some _) ↦ elim s.upstream_requester [
          | none ↦ (ok alone, s)
          | some ask ↦ (on_peer (ask (message s)) >>= λ response. lift (read response)) s
        ]
      ]

  unfoldable pub call_tool : String → String → Value → Value → Call (Link P) Value
  unfolding object echoed unknown_target tool_answer
  call_tool mid execution_id name arguments =
      forward "execution" (unknown_target python "tool" "unknown_tool" "tool_name" name) get_tool
        name (dict (echoed python name arguments))
        (λ s.
          request s "execute_tool" mid (("execution_id", str execution_id) ∷ [])
            (("tool_name", name) ∷ ("arguments", arguments) ∷ []))
        (tool_answer python)

  unfoldable pub read_resource : String → Value → Value → Call (Link P) Value
  unfolding object array unknown_target item_answer
  read_resource mid uri arguments =
      forward "reads" (unknown_target python "resource" "unknown_resource" "uri" uri) get_resource
        uri (array (dict (object (("uri", uri) ∷ ("arguments", arguments) ∷ [])) ∷ []))
        (λ s. request s "read_resource" mid [] (("uri", uri) ∷ ("context", arguments) ∷ []))
        (item_answer python "contents" "Upstream resource read failed")

  unfoldable pub get_prompt_messages : String → Value → Value → Call (Link P) Value
  unfolding object user_message unknown_target item_answer
  get_prompt_messages mid name arguments =
      forward "prompts" (unknown_target python "prompt" "unknown_prompt" "name" name) get_prompt
        name (user_message name arguments)
        (λ s. request s "get_prompt" mid [] (("name", name) ∷ ("arguments", arguments) ∷ []))
        (item_answer python "messages" "Upstream prompt retrieval failed")
