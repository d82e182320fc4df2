-- ===== src/Mcp/Handler.antt =====
-- src/naia_relay/protocols/mcp/handler.py: MCPHandler. Its callbacks act on the world, of which the
-- registry is a part. pydantic's check of the request is the parameter `check`.
use Prim.Native.String.{◌++◌ as ◌<>◌}
use naia_relay.Prelude.{
  String, Bool, true, false, Option, none, some, [], ◌∷◌, map, ◌==◌, if◌then◌else◌, ◌||◌,
}
use naia_relay.Json.{Value, Object, object, array, str, dict, get, empty, ℤ}
use naia_relay.Errors.{Exn, key_error, Interpreter, to_text}
use naia_relay.Call.{Call, Result, ok, raised, pure, lift, gets, modify, zoom, catch, ◌>>=◌, ◌>>◌}
use naia_relay.Pydantic.{Checked, or_raise}
use naia_relay.Registry.Store.{RegistryStore, snapshot}
use naia_relay.Mcp.Response.{
  JsonRpcRequest, result_response, error_response, serialize_tool, serialize_resource, list_prompt,
  initialize_result, method_not_found, server_error,
}

pub record McpHandler : Type 0 where
  pub initialized : Bool
  pub log_level : String

-- MCPHandler(registry=...)
abbrev pub new_handler : McpHandler
new_handler = record { initialized = false; log_level = "info" }

pub record Handling (W : Type 0) : Type 0 where
  pub handler : McpHandler
  pub world : W

-- A callback takes the name or uri, and the arguments, as the request's params hold them.
pub record Callbacks (W : Type 0) : Type 0 where
  pub execute_tool : Option (Value → Value → Call W Object)
  pub read_resource : Option (Value → Value → Call W Value)
  pub get_prompt : Option (Value → Value → Call W Value)

-- The cases of `match request.method`.
pub data Method : Type 0 where
  initialize notify_initialized list_tools call_tool list_resources read_resource : Method
  list_prompts get_prompt set_level unsupported unknown : Method

unfoldable pub method_of : String → Method
method_of m =
    if m == "initialize"
    then initialize
    else if m == "notifications/initialized"
    then notify_initialized
    else if m == "tools/list"
    then list_tools
    else if m == "tools/call"
    then call_tool
    else if m == "resources/list"
    then list_resources
    else if m == "resources/read"
    then read_resource
    else if m == "prompts/list"
    then list_prompts
    else if m == "prompts/get"
    then get_prompt
    else if m == "logging/setLevel"
    then set_level
    else if m == "sampling/createMessage" || m == "roots/list" || m == "completion/complete"
    then unsupported
    else unknown

-- params[key]
unfoldable pub required : String → Object → Result Value
unfolding get
required key params = elim (get key params) [ none ↦ raised (key_error key) | some v ↦ ok v ]

-- params.get(key, default)
unfoldable pub param_or : String → Value → Object → Value
unfolding get
param_or key default params = elim (get key params) [ none ↦ default | some v ↦ v ]

-- What an error response says of the exception behind it.
unfoldable pub failure_data : Interpreter → Exn → Object
unfolding object
failure_data python e =
    object (("exception_type", str (python.type_name e)) ∷ ("detail", str (python.str_exc e)) ∷ [])

module _ {W : Type 0} (registry_of : W → RegistryStore) (callbacks : Callbacks W)
    (python : Interpreter) where
  abbrev pub respond : JsonRpcRequest → Object → Call (Handling W) (Option Object)
  respond request result = pure (some (result_response request.id result))

  abbrev pub refuse : JsonRpcRequest → ℤ → String → Object → Call (Handling W) (Option Object)
  refuse request code message extra = pure (some (error_response request.id code message extra))

  abbrev pub on_world : {A : Type 0} → Call W A → Call (Handling W) A
  on_world = zoom (λ s. s.world) (λ w s. record s { world = w })

  -- The `except Exception` of the three calls.
  abbrev pub excuse : JsonRpcRequest → String → Value → Exn → Call (Handling W) (Option Object)
  excuse request method target e =
      refuse request server_error (method <> " failed for " <> to_text python target)
        (failure_data python e)

  -- `tools/call`, `resources/read` and `prompts/get`: the target and the arguments are read first,
  -- outside the `try`.
  unfoldable pub call_back :
      {A : Type 0}
      → JsonRpcRequest
      → String
      → String
      → Option (Value → Value → Call W A)
      → (A → Object)
      → Call (Handling W) (Option Object)
  unfolding required param_or
  call_back request method key callback result = do
    target ← lift (required key request.params)
    elim callback [
      | none ↦ refuse request method_not_found (method <> " not available") empty
      | some f ↦
          catch
            (on_world (f target (param_or "arguments" (dict empty) request.params)) >>= λ a.
              respond request (result a))
            (excuse request method target)
    ]

  -- The branches of `match request.method`.
  unfoldable pub branch : JsonRpcRequest → Method → Call (Handling W) (Option Object)
  unfolding object array snapshot param_or
  branch request initialize = do
    modify (λ s. record s { handler = record s.handler { initialized = false } })
    respond request (initialize_result request.params)
  branch request notify_initialized = do
    modify (λ s. record s { handler = record s.handler { initialized = true } })
    pure none
  branch request list_tools = do
    shot ← gets (λ s. snapshot (registry_of s.world))
    respond request
        (object (("tools", array (map (λ tool. dict (serialize_tool tool)) shot.tools)) ∷ []))
  branch request call_tool =
      call_back request "tools/call" "name" callbacks.execute_tool (λ result. result)
  branch request list_resources = do
    shot ← gets (λ s. snapshot (registry_of s.world))
    respond request
        (object (("resources", array (map (λ r. dict (serialize_resource r)) shot.resources)) ∷ []))
  branch request read_resource =
      call_back request "resources/read" "uri" callbacks.read_resource
        (λ contents. object (("contents", contents) ∷ []))
  branch request list_prompts = do
    shot ← gets (λ s. snapshot (registry_of s.world))
    respond request
        (object (("prompts", array (map (λ p. dict (list_prompt p)) shot.prompts)) ∷ []))
  branch request get_prompt =
      call_back request "prompts/get" "name" callbacks.get_prompt
        (λ messages. object (("messages", messages) ∷ []))
  branch request set_level = do
    modify (λ s. record s {
      handler = record s.handler {
        log_level = to_text python (param_or "level" (str "info") request.params);
      };
    })
    respond request empty
  branch request unsupported =
      refuse request method_not_found (request.method <> " is unsupported in naia-relay v1") empty
  branch request unknown =
      refuse request method_not_found ("Method not found: " <> request.method) empty

  unfoldable pub dispatch : JsonRpcRequest → Call (Handling W) (Option Object)
  unfolding branch method_of
  dispatch request = branch request (method_of request.method)

  unfoldable pub handle_message :
      (Object → Checked JsonRpcRequest) → Object → Call (Handling W) (Option Object)
  handle_message check message = do request ← lift (or_raise (check message)); dispatch request
