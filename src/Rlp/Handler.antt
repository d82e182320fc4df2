-- ===== src/Rlp/Handler.antt =====
-- src/naia_relay/protocols/rlp/handler.py: RLPHandler. As for the executor protocol, the state is
-- the shared registry, the handler's own fields and what its callbacks act on.
use Prim.Native.String.{◌++◌ as ◌<>◌}
use naia_relay.Prelude.{
  ℕ, ◌+◌, String, Bool, true, false, Option, none, some, List, [], ◌∷◌, ◌++◌, ◌==◌, not,
  if◌then◌else◌, is_some, eqb, length,
}
use naia_relay.Json.{Value, Object, empty, decimal}
use naia_relay.Errors.{value_error, validation_error}
use naia_relay.Call.{Call, Result, ok, raised, pure, ◌>>=◌, ◌>>◌}
use naia_relay.Pydantic.{Checked}
use naia_relay.Registry.Store.{
  RegistryStore, register_tool, deregister_tool, register_resource, deregister_resource,
  register_prompt, deregister_prompt, get_tool, get_resource, get_prompt, mark_stale, mark_fresh,
}
use naia_relay.Tep.Models.{ToolPayload, ResourcePayload, PromptPayload}
use naia_relay.Tep.Handler.{tool_of, resource_of, prompt_of}
use naia_relay.Rlp.Models.{
  Models, RlpEnvelope, ExecuteToolPayload, ReadResourcePayload, GetPromptPayload,
}
use naia_relay.Rlp.Response.{Identity, ok_response, error_response, gap_envelope}

pub record RlpHandler : Type 0 where
  pub host_relay_id : String
  pub relay_session_id : String
  pub session_token : Option String
  pub bound_clients : List String
  pub last_progress : Option Object
  pub last_execution_result : Option Object
  pub last_execution_error : Option Object
  pub last_resource_result : Option Object
  pub last_prompt_result : Option Object

-- RLPHandler(registry=..., host_relay_id=host, relay_session_id=session)
abbrev pub new_handler : String → String → RlpHandler
new_handler host session = record {
  host_relay_id = host;
  relay_session_id = session;
  session_token = none;
  bound_clients = [];
  last_progress = none;
  last_execution_result = none;
  last_execution_error = none;
  last_resource_result = none;
  last_prompt_result = none;
}

pub record Handling (W : Type 0) : Type 0 where
  pub registry : RegistryStore
  pub handler : RlpHandler
  pub world : W

pub record Callbacks (W : Type 0) : Type 0 where
  pub execute_tool : Option (ExecuteToolPayload → Call W Object)
  pub read_resource : Option (ReadResourcePayload → Call W (List Value))
  pub get_prompt : Option (GetPromptPayload → Call W (List Value))

abbrev pub identity : RlpHandler → Identity
identity h = record { host_relay_id = h.host_relay_id; relay_session_id = h.relay_session_id }

-- x in xs
unfoldable pub contains : String → List String → Bool
contains x [] = false
contains x (y ∷ ys) = if y == x then true else contains x ys

-- xs.add(x), for a set kept as a list with no repetitions.
unfoldable pub add : String → List String → List String
unfolding contains
add x xs = if contains x xs then xs else xs ++ x ∷ []

unfoldable pub bound_client_count : RlpHandler → ℕ
bound_client_count h = length h.bound_clients

-- The tests on an envelope that pydantic has accepted.
unfoldable pub check_envelope : RlpEnvelope → Result RlpEnvelope
check_envelope e =
    if not (e.protocol == "rlp")
    then raised (value_error "RLP messages must have protocol='rlp'")
    else if not (e.version == "1.0")
    then raised (value_error ("Unsupported RLP version: " <> e.version))
    else ok e

unfoldable pub validate_message : Models → Object → Result RlpEnvelope
unfolding check_envelope
validate_message models message = elim (models.envelope message) [
  | Checked.invalid e ↦ raised (validation_error e)
  | Checked.valid e ↦ check_envelope e
]

-- What the three `_upsert_*` methods do to the registry.
unfoldable pub upsert_tool : ToolPayload → Call RegistryStore ℕ
unfolding get_tool tool_of
upsert_tool tool s =
    (if is_some (get_tool tool.name s)
        then deregister_tool tool.name >> register_tool (tool_of none tool)
        else register_tool (tool_of none tool))
      s

unfoldable pub upsert_resource : ResourcePayload → Call RegistryStore ℕ
unfolding get_resource resource_of
upsert_resource resource s =
    (if is_some (get_resource resource.uri s)
        then deregister_resource resource.uri >> register_resource (resource_of none resource)
        else register_resource (resource_of none resource))
      s

unfoldable pub upsert_prompt : PromptPayload → Call RegistryStore ℕ
unfolding get_prompt prompt_of
upsert_prompt prompt s =
    (if is_some (get_prompt prompt.name s)
        then deregister_prompt prompt.name >> register_prompt (prompt_of none prompt)
        else register_prompt (prompt_of none prompt))
      s

-- `None` if the revision is the next one; else the response to the gap. The registry's staleness is
-- set either way.
unfoldable pub validate_incremental_revision :
    String → String → Identity → ℕ → Call RegistryStore (Option Object)
unfolding mark_stale mark_fresh
validate_incremental_revision mid gid self revision s =
    if eqb revision (s.revision + 1) then (ok none, mark_fresh s) else (
      ok (
          some (
            error_response mid self (gap_envelope gid self) "revision_gap"
              ("Expected registry revision "
                <> decimal (s.revision + 1)
                <> " but received "
                <> decimal revision)
              empty)),
      mark_stale s,
    )

-- The branches that apply an incremental event: the gap test, the change, the response.
unfoldable pub incremental :
    String → String → Identity → RlpEnvelope → ℕ → Call RegistryStore ℕ → Call RegistryStore Object
unfolding validate_incremental_revision
incremental mid gid self e revision change = do
  gap ← validate_incremental_revision mid gid self revision
  elim gap [ some response ↦ pure response | none ↦ change >> pure (ok_response mid self e empty) ]
