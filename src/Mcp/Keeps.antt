-- ===== src/Mcp/Keeps.antt =====
-- What the MCP handler keeps of the world in which its callbacks act.
use naia_relay.Prelude.{String, Option, none, some, inl, inr}
use naia_relay.Json.{Value, Object, dict, empty}
use naia_relay.Errors.{Interpreter}
use naia_relay.Call.{Call, Result-cases, catch, lift, ◌>>=◌}
use naia_relay.Pydantic.{Checked, valid, invalid, or_raise}
use naia_relay.Registry.Store.{RegistryStore}
use naia_relay.Mcp.Response.{JsonRpcRequest}
use naia_relay.Mcp.Handler.{
  Handling, Callbacks, Method, method_of, required, param_or, branch, call_back, dispatch,
  handle_message, on_world, respond, excuse,
}

-- A callback keeps a property of the world, whether it returns or raises.
abbrev pub KeptBy : {W A : Type 0} → (W → Type 0) → Option (Value → Value → Call W A) → Type 0
KeptBy P none = Unit
KeptBy P (some f) = (target arguments : Value) (w : _) → P w → P (f target arguments w).1

module _ {W : Type 0} (P : W → Type 0) (registry_of : W → RegistryStore) (callbacks : Callbacks W)
    (python : Interpreter) where
  excused :
      {A : Type 0} (request : JsonRpcRequest) (method : String) (target : Value) (m : Call W A)
      (result : A → Object) (s : Handling W)
      → P (m s.world).1
      → P
          (catch
            (on_world registry_of callbacks python m >>= λ a.
              respond registry_of callbacks python request (result a))
            (excuse registry_of callbacks python request method target)
            s).1.world
  excused request method target m result s h = elim (Result-cases (m s.world).0) [
    | inl (a, returned) ↦ rw returned h
    | inr (x, failed) ↦ rw failed h
  ]

  call_back-keeps :
      {A : Type 0} (request : JsonRpcRequest) (method key : String)
      (callback : Option (Value → Value → Call W A)) (result : A → Object) (s : Handling W)
      → KeptBy P callback
      → P s.world
      → P (call_back registry_of callbacks python request method key callback result s).1.world
  unfolding call_back
  call_back-keeps request method key none result s kept h =
      elim (Result-cases (required key request.params)) [
        | inr (x, absent) ↦ rw absent h
        | inl (target, given) ↦ rw given h
      ]
  call_back-keeps request method key (some f) result s kept h =
      elim (Result-cases (required key request.params)) [
        | inr (x, absent) ↦ rw absent h
        | inl (target, given) ↦ rw given (
            excused request method target
              (f target (param_or "arguments" (dict empty) request.params)) result s
              (kept target (param_or "arguments" (dict empty) request.params) s.world h))
      ]

  module _ (tools : KeptBy P callbacks.execute_tool) (resources : KeptBy P callbacks.read_resource)
      (prompts : KeptBy P callbacks.get_prompt) where
    branch-keeps :
        (request : JsonRpcRequest) (m : Method) (s : Handling W)
        → P s.world
        → P (branch registry_of callbacks python request m s).1.world
    unfolding branch
    branch-keeps request Method.initialize s h = h
    branch-keeps request Method.notify_initialized s h = h
    branch-keeps request Method.call_tool s h =
        call_back-keeps request "tools/call" "name" callbacks.execute_tool _ s tools h
    branch-keeps request Method.read_resource s h =
        call_back-keeps request "resources/read" "uri" callbacks.read_resource _ s resources h
    branch-keeps request Method.get_prompt s h =
        call_back-keeps request "prompts/get" "name" callbacks.get_prompt _ s prompts h
    branch-keeps request Method.list_tools s h = h
    branch-keeps request Method.list_resources s h = h
    branch-keeps request Method.list_prompts s h = h
    branch-keeps request Method.set_level s h = h
    branch-keeps request Method.unsupported s h = h
    branch-keeps request Method.unknown s h = h

    pub handle_message-keeps :
        (check : Object → Checked JsonRpcRequest) (message : Object) (s : Handling W)
        → P s.world
        → P (handle_message registry_of callbacks python check message s).1.world
    unfolding handle_message dispatch
    handle_message-keeps check message s h = handled (check message)
      where
        handled :
            (checked : Checked JsonRpcRequest)
            → P ((lift (or_raise checked) >>= dispatch registry_of callbacks python) s).1.world
        handled (valid request) = branch-keeps request (method_of request.method) s h
        handled (invalid e) = h
