-- ===== src/Rlp/Dispatch.antt =====
-- src/naia_relay/protocols/rlp/handler.py: RLPHandler.handle_message and its branches.
use naia_relay.Prelude.{
  ℕ, String, Option, none, some, [], ◌∷◌, ◌==◌, not, ◌&&◌, if◌then◌else◌, is_some, same_text,
}
use naia_relay.Json.{Object, object, array, str, empty}
use naia_relay.Errors.{Exn, Interpreter}
use naia_relay.Call.{Call, lift, gets, modify, zoom, catch, ◌>>=◌, ◌>>◌}
use naia_relay.Pydantic.{Checked, or_raise}
use naia_relay.Registry.Store.{
  RegistryStore, deregister_tool, deregister_resource, deregister_prompt, replace_from_snapshot,
}
use naia_relay.Rlp.Models as Payload
use naia_relay.Rlp.Models.{Message, Models, RlpEnvelope, BindSessionPayload, load}
use naia_relay.Rlp.Dump.{
  dump_progress, dump_result, dump_error, dump_resource_result, dump_prompt_result,
}
use naia_relay.Rlp.Response.{ok_response, error_response, exception_response}
use naia_relay.Rlp.Serialize.{build_snapshot_details, snapshot_of}
use naia_relay.Rlp.Handler.{
  RlpHandler, Handling, Callbacks, identity, add, validate_message, upsert_tool, upsert_resource,
  upsert_prompt, incremental,
}

module _ {W : Type 0} where
  abbrev pub on_registry : {A : Type 0} → Call RegistryStore A → Call (Handling W) A
  on_registry = zoom (λ s. s.registry) (λ r s. record s { registry = r })

  abbrev pub on_world : {A : Type 0} → Call W A → Call (Handling W) A
  on_world = zoom (λ s. s.world) (λ w s. record s { world = w })

  abbrev pub set_handler : (RlpHandler → RlpHandler) → Call (Handling W) Unit
  set_handler f = modify (λ s. record s { handler = f s.handler })

-- The ids that `new_message_id` gives in one call: the response's, and the gap envelope's.
pub record Ids : Type 0 where
  pub response : String
  pub gap : String

module _ {W : Type 0} (callbacks : Callbacks W) (python : Interpreter) (ids : Ids) where
  abbrev pub answer : RlpEnvelope → Object → Call (Handling W) Object
  answer e details = gets (λ s. ok_response ids.response (identity s.handler) e details)

  abbrev pub refuse : RlpEnvelope → String → String → Call (Handling W) Object
  refuse e code message =
      gets (λ s. error_response ids.response (identity s.handler) e code message empty)

  -- `except Exception as exc` of the three callbacks.
  abbrev pub excuse : RlpEnvelope → String → Exn → Call (Handling W) Object
  excuse e default_code exc =
      gets (λ s. exception_response ids.response (identity s.handler) python e default_code exc)
      >>= lift

  abbrev mutate : RlpEnvelope → ℕ → Call RegistryStore ℕ → Call (Handling W) Object
  mutate e revision change s =
      on_registry (incremental ids.response ids.gap (identity s.handler) e revision change) s

  -- The `bind_session` branch.
  unfoldable pub bind_session : RlpEnvelope → BindSessionPayload → Call (Handling W) Object
  unfolding add
  bind_session e p s =
      (if not (p.relay_session_id == s.handler.relay_session_id)
          then refuse e "unknown_session" p.relay_session_id
          else if is_some s.handler.session_token
              && not (same_text p.session_token s.handler.session_token)
          then refuse e "invalid_token" "Invalid session token."
          else do
            set_handler (λ h. record h { bound_clients = add p.client_instance_id h.bound_clients })
            details ← lift (build_snapshot_details s.registry)
            answer e details)
        s

  -- The branches of `match envelope.message_type`. Its last case is not reached, since every key of
  -- MESSAGE_PAYLOAD_MODELS has a branch.
  unfoldable pub dispatch : RlpEnvelope → Message → Call (Handling W) Object
  unfolding snapshot_of object array dump_progress dump_result dump_error dump_resource_result
      dump_prompt_result
  dispatch e (Payload.hello p) = do
    host ← gets (λ s. s.handler.host_relay_id)
    answer e (object (("host_relay_id", str host) ∷ []))
  dispatch e (Payload.bind_session p) = bind_session e p
  dispatch e (Payload.snapshot p) = do
    on_registry (modify (replace_from_snapshot (snapshot_of p)))
    answer e empty
  dispatch e (Payload.tool_upsert p) = mutate e p.registry_revision (upsert_tool p.tool)
  dispatch e (Payload.tool_removed p) = mutate e p.registry_revision (deregister_tool p.tool_name)
  dispatch e (Payload.resource_upsert p) = mutate e p.registry_revision (upsert_resource p.resource)
  dispatch e (Payload.resource_removed p) = mutate e p.registry_revision (deregister_resource p.uri)
  dispatch e (Payload.prompt_upsert p) = mutate e p.registry_revision (upsert_prompt p.prompt)
  dispatch e (Payload.prompt_removed p) = mutate e p.registry_revision (deregister_prompt p.name)
  dispatch e (Payload.execute_tool p) = elim callbacks.execute_tool [
    | none ↦ refuse e "unimplemented" "execute_tool callback missing"
    | some f ↦ catch (on_world (f p) >>= answer e) (excuse e "execution_failed")
  ]
  dispatch e (Payload.read_resource p) = elim callbacks.read_resource [
    | none ↦ refuse e "unimplemented" "read_resource callback missing"
    | some f ↦
        catch
          (on_world (f p) >>= λ contents.
            answer e (object (("uri", str p.uri) ∷ ("contents", array contents) ∷ [])))
          (excuse e "resource_read_failed")
  ]
  dispatch e (Payload.resource_result p) = do
    set_handler (λ h. record h { last_resource_result = some (dump_resource_result p) })
    answer e (dump_resource_result p)
  dispatch e (Payload.get_prompt p) = elim callbacks.get_prompt [
    | none ↦ refuse e "unimplemented" "get_prompt callback missing"
    | some f ↦
        catch
          (on_world (f p) >>= λ messages.
            answer e (object (("name", str p.name) ∷ ("messages", array messages) ∷ [])))
          (excuse e "prompt_get_failed")
  ]
  dispatch e (Payload.prompt_result p) = do
    set_handler (λ h. record h { last_prompt_result = some (dump_prompt_result p) })
    answer e (dump_prompt_result p)
  dispatch e (Payload.execution_progress p) = do
    set_handler (λ h. record h { last_progress = some (dump_progress p) })
    answer e (dump_progress p)
  dispatch e (Payload.execution_result p) = do
    set_handler (λ h. record h { last_execution_result = some (dump_result p) })
    answer e (dump_result p)
  dispatch e (Payload.execution_error p) = do
    set_handler (λ h. record h { last_execution_error = some (dump_error p) })
    answer e (dump_error p)
  dispatch e (Payload.heartbeat p) = answer e empty
  dispatch e (Payload.disconnect_notice p) = answer e empty

  abbrev pub deliver : RlpEnvelope → Option (Checked Message) → Call (Handling W) Object
  deliver e none = refuse e "unknown_message_type" e.message_type
  deliver e (some checked) = lift (or_raise checked) >>= dispatch e

  unfoldable pub handle_message : Models → Object → Call (Handling W) Object
  handle_message models message = do
    e ← lift (validate_message models message)
    deliver e (load models e.message_type e.payload)
