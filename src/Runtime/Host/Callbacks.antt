-- ===== src/Runtime/Host/Callbacks.antt =====
-- src/naia_relay/runtime/relay.py: the callbacks of HostRelayRuntime that forward a request to the
-- executor, each cut at the wait on its future.
use Prim.Native.String.{◌++◌ as ◌<>◌}
use naia_relay.Prelude.{ℕ, String, Bool, Option, none, some, List, [], ◌∷◌, if◌then◌else◌, ◌++◌}
use naia_relay.Prelude.Dict.{lookup, insert, erase}
use naia_relay.Json.{Value, Object, object, array, str, dict, bool, null}
use naia_relay.Errors.{Interpreter}
use naia_relay.Call.{Call, Result, pure, raise, lift, modify, finally, zoom, ◌>>◌}
use naia_relay.Rlp.Models.{ExecuteToolPayload, ReadResourcePayload, GetPromptPayload}
use naia_relay.Runtime.Serve.{with_request_timeout}
use naia_relay.Runtime.Direct.{echoed, user_message}
use naia_relay.Runtime.Host.{HostRuntime, Future, waiting, settled, host_holds, failure}

-- The keys of a request to the executor, around its own.
abbrev pub executor_message :
    {P : Type 0}
    → HostRuntime P
    → String
    → String
    → List (String × Value)
    → List (String × Value)
    → Object
executor_message s kind mid extra payload = object (
    ("protocol", str "tep")
      ∷ ("version", str "1.0")
      ∷ ("message_type", str kind)
      ∷ ("message_id", str mid)
      ∷ ("session_id", str (s.base.session_id <> ":executor"))
      ∷ extra
    ++ ("payload", dict (object payload)) ∷ [])

abbrev pub execution_message :
    {P : Type 0} → String → String → ExecuteToolPayload → HostRuntime P → Object
execution_message mid execution_id p s =
    executor_message s "execute_tool" mid (("execution_id", str execution_id) ∷ []) (
      ("tool_name", str p.tool_name)
      ∷ ("arguments", dict p.arguments)
      ∷ ("context", dict p.context)
      ∷ ("stream", bool p.stream)
      ∷ [])

abbrev pub request_message :
    {P : Type 0} → String → String → List (String × Value) → HostRuntime P → Object
request_message kind mid payload s = executor_message s kind mid [] payload

abbrev pub read_keys : ReadResourcePayload → List (String × Value)
read_keys p =
    ("uri", str p.uri) ∷ ("arguments", dict p.arguments) ∷ ("context", dict p.context) ∷ []

abbrev pub prompt_keys : GetPromptPayload → List (String × Value)
prompt_keys p =
    ("name", str p.name) ∷ ("arguments", dict p.arguments) ∷ ("context", dict p.context) ∷ []

-- How a callback begins: it has its answer at once, or it waits on the future under an id.
pub data Begun : Type 0 where
  answered : Value → Begun
  awaits : String → Begun

-- if self._executor_transport is None: return alone
abbrev pub unless_attached :
    {P : Type 0} → Option ℕ → Value → Call (HostRuntime P) Begun → Call (HostRuntime P) Begun
unless_attached none alone m = pure (answered alone)
unless_attached (some _) alone m = m

module _ {P : Type 0} (send : ℕ → Object → Call P Unit) where
  abbrev pub send_to : Option ℕ → Object → Call (HostRuntime P) Unit
  send_to none message =
      raise (failure "Executor transport is not connected" "executor_not_connected")
  send_to (some adapter) message =
      zoom (λ s. s.executor) (λ p s. record s { executor = p }) (send adapter message)

  unfoldable pub send_executor_message : Object → Call (HostRuntime P) Unit
  send_executor_message message s = send_to s.executor_transport message s

  -- The future is entered, the message is sent, and the wait begins. The send's own wait is not
  -- split: the future stands before it.
  abbrev pub ask_executor :
      String
      → (HostRuntime P → HostRuntime P)
      → (HostRuntime P → Object)
      → Call (HostRuntime P) Begun
  ask_executor id enter message s =
      (modify enter >> send_executor_message (message s) >> pure (awaits id)) s

abbrev pub enter_execution : {P : Type 0} → String → HostRuntime P → HostRuntime P
enter_execution id s = record s { pending_executions = insert id waiting s.pending_executions }

abbrev pub enter_request : {P : Type 0} → String → HostRuntime P → HostRuntime P
enter_request id s = record s { pending_requests = insert id waiting s.pending_requests }

module _ {P : Type 0} (python : Interpreter) (send : ℕ → Object → Call P Unit) where
  -- _rlp_execute_tool up to its wait.
  unfoldable pub begin_execution : String → String → ExecuteToolPayload → Call (HostRuntime P) Begun
  unfolding echoed insert send_executor_message object
  begin_execution mid execution_id p s =
      unless_attached s.executor_transport
        (dict (echoed python (str p.tool_name) (dict p.arguments)))
        (ask_executor send execution_id (enter_execution execution_id)
          (execution_message mid execution_id p))
        s

  -- _rlp_read_resource and _rlp_get_prompt up to their wait.
  abbrev begin_request :
      String → String → Value → List (String × Value) → Call (HostRuntime P) Begun
  begin_request kind mid alone payload s =
      unless_attached s.executor_transport alone
        (ask_executor send mid (enter_request mid) (request_message kind mid payload)) s

  unfoldable pub begin_read : String → ReadResourcePayload → Call (HostRuntime P) Begun
  unfolding insert send_executor_message object array
  begin_read mid p =
      begin_request "read_resource" mid
        (array (dict (object (("uri", str p.uri) ∷ ("context", dict p.context) ∷ [])) ∷ []))
        (read_keys p)

  unfoldable pub begin_prompt : String → GetPromptPayload → Call (HostRuntime P) Begun
  unfolding insert send_executor_message object user_message
  begin_prompt mid p =
      begin_request "get_prompt" mid (user_message (str p.name) (dict p.arguments)) (prompt_keys p)

module _ {P : Type 0} where
  -- A wait that no deadline cuts off: nothing while the future is not done, then its outcome.
  abbrev pub in_time :
      (HostRuntime P → HostRuntime P)
      → Future
      → HostRuntime P
      → Option (Result Value × HostRuntime P)
  in_time pop waiting s = none
  in_time pop (settled r) s = some (finally (with_request_timeout host_holds none (lift r)) pop s)

  -- What an await on a future gives. `late` says that the deadline cuts the wait off, which may
  -- happen even to a future that is done: asyncio's wait_for raises TimeoutError then from Python
  -- 3.12 on, and returns the outcome before.
  abbrev pub resume :
      Bool
      → (HostRuntime P → HostRuntime P)
      → Option Future
      → HostRuntime P
      → Option (Result Value × HostRuntime P)
  resume late pop none s = none
  resume late pop (some f) s =
      if late
      then some (finally (with_request_timeout host_holds (some (λ s. s)) (pure null)) pop s)
      else in_time pop f s

  unfoldable pub await_execution :
      Bool → String → HostRuntime P → Option (Result Value × HostRuntime P)
  unfolding lookup erase with_request_timeout
  await_execution late id s =
      resume late (λ s. record s { pending_executions = erase id s.pending_executions })
        (lookup id s.pending_executions) s

  unfoldable pub await_request :
      Bool → String → HostRuntime P → Option (Result Value × HostRuntime P)
  unfolding lookup erase with_request_timeout
  await_request late id s =
      resume late (λ s. record s { pending_requests = erase id s.pending_requests })
        (lookup id s.pending_requests) s
