-- ===== src/Mcp/Answers.antt =====
-- What a client of the MCP handler gets.
use naia_relay.Prelude.{
  ◌≡◌, refl, String, true, false, Option, none, some, inl, inr, Bool-cases, Option-cases,
}
use naia_relay.Json.{Value, Object, get, str, dict, empty, ℤ}
use naia_relay.Errors.{Exn, key_error, Interpreter}
use naia_relay.Call.{Call, Result, ok, raised, Result-cases, catch, ◌>>=◌}
use naia_relay.Registry.Store.{RegistryStore}
use naia_relay.Mcp.Response.{
  JsonRpcRequest, result_response, error_response, negotiate_protocol_version, negotiate,
  is_supported, default_protocol_version, initialize_result,
}
use naia_relay.Mcp.Handler.{
  Handling, Callbacks, Method, method_of, branch, call_back, dispatch, param_or, on_world, respond,
  excuse,
}

-- The answer to a request carries its id; only the notification has no answer.
abbrev pub HasId : Value → Method → Option Object → Type 0
HasId id m none = m ≡ Method.notify_initialized
HasId id m (some response) =
    (get "jsonrpc" response ≡ some (str "2.0")) × (get "id" response ≡ some id)

-- The parameter that a method may not lack.
abbrev pub required : Method → Option String
required Method.call_tool = some "name"
required Method.read_resource = some "uri"
required Method.get_prompt = some "name"
required m = none

-- The exception names the parameter that the method requires, and the request lacks it.
pub data Missing (params : Object) (m : Method) : Exn → Type 0 where
  missing :
      (key : String)
      → required m ≡ some key
      → get key params ≡ none
      → Missing params m (key_error key)

result-HasId : (id : Value) (m : Method) (o : Object) → HasId id m (some (result_response id o))
unfolding result_response get
result-HasId id m o = (refl, refl)

error-HasId :
    (id : Value) (m : Method) (code : ℤ) (message : String) (o : Object)
    → HasId id m (some (error_response id code message o))
unfolding error_response get
error-HasId id m code message o = (refl, refl)

-- The version that a client asks for, if it is a text.
abbrev asked_version : Option Value → Option String
asked_version (some (str v)) = some v
asked_version _ = none

-- A version that is asked for and supported is agreed on, and else the handler's own is answered.
pub data Agrees (asked : Option Value) : String → Type 0 where
  agreed : (v : String) → asked_version asked ≡ some v → is_supported v ≡ true → Agrees asked v
  unsupported :
      (v : String)
      → asked_version asked ≡ some v
      → is_supported v ≡ false
      → Agrees asked default_protocol_version
  unasked : asked_version asked ≡ none → Agrees asked default_protocol_version

default_supported : is_supported default_protocol_version ≡ true
unfolding is_supported
default_supported = refl

Agrees-is_supported :
    (asked : Option Value) {version : String} → Agrees asked version → is_supported version ≡ true
Agrees-is_supported asked (agreed v a h) = h
Agrees-is_supported asked (unsupported v a h) = default_supported
Agrees-is_supported asked (unasked a) = default_supported

negotiate-Agrees : (asked : Option Value) → Agrees asked (negotiate asked)
unfolding negotiate
negotiate-Agrees none = unasked refl
negotiate-Agrees (some (str v)) = elim (Bool-cases (is_supported v)) [
  | inl h ↦ rw h (agreed v refl h)
  | inr h ↦ rw h (unsupported v refl h)
]
negotiate-Agrees (some v) = unasked refl

-- A call returns with the request's id, or raises because a parameter is missing.
abbrev pub Outcome : JsonRpcRequest → Method → Result (Option Object) → Type 0
Outcome request m (ok answer) = HasId request.id m answer
Outcome request m (raised x) = Missing request.params m x

module _ {W : Type 0} (registry_of : W → RegistryStore) (callbacks : Callbacks W)
    (python : Interpreter) where
  excused :
      {A : Type 0} (request : JsonRpcRequest) (m' : Method) (method : String) (target : Value)
      (m : Call W A) (result : A → Object) (s : Handling W)
      → Outcome request m'
          (catch
            (on_world registry_of callbacks python m >>= λ a.
              respond registry_of callbacks python request (result a))
            (excuse registry_of callbacks python request method target)
            s).0
  excused request m' method target m result s = elim (Result-cases (m s.world).0) [
    | inl (a, returned) ↦ rw returned (result-HasId request.id m' _)
    | inr (x, failed) ↦ rw failed (error-HasId request.id m' _ _ _)
  ]

  call_back-Outcome :
      {A : Type 0} (request : JsonRpcRequest) (m' : Method) (method key : String)
      (callback : Option (Value → Value → Call W A)) (result : A → Object) (s : Handling W)
      → required m' ≡ some key
      → Outcome request m'
          (call_back registry_of callbacks python request method key callback result s).0
  unfolding call_back
  call_back-Outcome request m' method key callback result s need =
      elim (Option-cases (get key request.params)) [
        | inl absent ↦ rw (absent, Outcome) (missing key need absent)
        | inr (target, given) ↦ elim (Option-cases callback) [
          | inl none_given ↦ rw (given, none_given, Outcome) (error-HasId request.id m' _ _ _)
          | inr (f, some_given) ↦
              rw (given, some_given, Outcome)
                (excused request m' method target
                  (f target (param_or "arguments" (dict empty) request.params)) result s)
        ]
      ]

  branch-Outcome :
      (request : JsonRpcRequest) (m : Method) (s : Handling W)
      → Outcome request m (branch registry_of callbacks python request m s).0
  unfolding branch
  branch-Outcome request Method.initialize s = result-HasId request.id Method.initialize _
  branch-Outcome request Method.notify_initialized s = refl
  branch-Outcome request Method.call_tool s =
      call_back-Outcome request Method.call_tool _ _ _ _ s refl
  branch-Outcome request Method.read_resource s =
      call_back-Outcome request Method.read_resource _ _ _ _ s refl
  branch-Outcome request Method.get_prompt s =
      call_back-Outcome request Method.get_prompt _ _ _ _ s refl
  branch-Outcome request Method.unsupported s = error-HasId request.id Method.unsupported _ _ _
  branch-Outcome request Method.unknown s = error-HasId request.id Method.unknown _ _ _
  branch-Outcome request Method.list_tools s = result-HasId request.id Method.list_tools _
  branch-Outcome request Method.list_resources s = result-HasId request.id Method.list_resources _
  branch-Outcome request Method.list_prompts s = result-HasId request.id Method.list_prompts _
  branch-Outcome request Method.set_level s = result-HasId request.id Method.set_level _

  -- Every request, whatever its callback does and raises, is answered with a JSON-RPC response that
  -- carries its id (the one notification that the handler knows, with none), or raises because its
  -- params lack what its method requires: the name of a tool or a prompt to call or get, the uri of a
  -- resource to read. No exception of a callback escapes.
  pub dispatch-Outcome :
      (request : JsonRpcRequest) (s : Handling W)
      → Outcome request
          (method_of request.method)
          (dispatch registry_of callbacks python request s).0
  unfolding dispatch
  dispatch-Outcome request s = branch-Outcome request (method_of request.method) s

-- The response is a result for the id, and its protocol version is agreed on with what was asked.
pub record Initialized (id : Value) (asked : Option Value) (response : Object) : Type 0 where
  pub has_id : get "id" response ≡ some id
  pub result : Object
  pub is_result : get "result" response ≡ some (dict result)
  pub version : String
  pub has_version : get "protocolVersion" result ≡ some (str version)
  pub agrees : Agrees asked version
  pub supported : is_supported version ≡ true

initialize_result-Initialized :
    (id : Value) (params : Object)
    → Initialized id (get "protocolVersion" params) (result_response id (initialize_result params))
unfolding result_response initialize_result negotiate_protocol_version get
initialize_result-Initialized id params = record {
  has_id = refl;
  result = initialize_result params;
  is_result = refl;
  version = negotiate_protocol_version params;
  has_version = refl;
  agrees = negotiate-Agrees (get "protocolVersion" params);
  supported =
      Agrees-is_supported (get "protocolVersion" params)
        (negotiate-Agrees (get "protocolVersion" params));
}

-- `initialize` is answered with a result whose protocol version the handler supports: the one that
-- the client asked for if that is supported, and else the handler's own. The handler then waits for
-- the client's notification.
pub initialize_answer :
    {W : Type 0} (registry_of : W → RegistryStore) (callbacks : Callbacks W) (python : Interpreter)
    (request : JsonRpcRequest) (s : Handling W)
    → request.method ≡ "initialize"
    → let (r, s') = dispatch registry_of callbacks python request s in
      (response : Object) × (r ≡ ok (some response))
      × Initialized request.id (get "protocolVersion" request.params) response
      × (s'.handler.initialized ≡ false)
unfolding dispatch
initialize_answer registry_of callbacks python request s h =
    rw h (_, refl, initialize_result-Initialized request.id request.params, refl)
