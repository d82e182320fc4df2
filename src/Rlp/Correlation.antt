-- ===== src/Rlp/Correlation.antt =====
-- What the answers of the handler name.
use Prim.Native.String.{◌++◌ as ◌<>◌}
use naia_relay.Prelude.{◌≡◌, refl, ◌⊎◌, String, Option, none, some, arith, inl, inr, ℕ}
use naia_relay.Json.{Object, get, str, opt_str, empty}
use naia_relay.Errors.{Exn, ProtocolError, protocol_error, Interpreter}
use naia_relay.Call.{Call, ok, raised, IfOk, Result-cases}
use naia_relay.Pydantic.{Checked, valid, invalid}
use naia_relay.Registry.Store.{
  RegistryStore, deregister_tool, deregister_resource, deregister_prompt,
}
use naia_relay.Tep.Response.{or_else}
use naia_relay.Rlp.Models as Payload
use naia_relay.Rlp.Models.{
  Message, Models, RlpEnvelope, load, ExecuteToolPayload, ReadResourcePayload, GetPromptPayload,
}
use naia_relay.Rlp.Response.{
  Identity, rlp_reply, ok_response, error_response, exception_response, gap_envelope, copied,
}
use naia_relay.Rlp.Handler.{
  Handling, Callbacks, identity, incremental, validate_message, upsert_tool, upsert_resource,
  upsert_prompt,
}
use naia_relay.Rlp.Dispatch.{Ids, dispatch, bind_session, deliver, handle_message}

-- The fields of a response that tie it to the message with this envelope.
pub record Answers (e : RlpEnvelope) (response : Object) : Type 0 where
  pub message_type : get "message_type" response ≡ some (str (e.message_type <> "_response"))
  pub target_relay_id : get "target_relay_id" response ≡ some (opt_str e.source_relay_id)
  pub request_id : get "request_id" response ≡ some (str (or_else e.request_id e.message_id))
  pub execution_id : get "execution_id" response ≡ some (opt_str e.execution_id)

rlp_reply-Answers :
    (mid : String) (self : Identity) (e : RlpEnvelope) (p : Object)
    → Answers e (rlp_reply mid self e p)
unfolding rlp_reply get
rlp_reply-Answers mid self e p = record {
  message_type = refl;
  target_relay_id = refl;
  request_id = refl;
  execution_id = refl;
}

module _ (mid : String) (self : Identity) (e : RlpEnvelope) where
  pub ok-Answers : (details : Object) → Answers e (ok_response mid self e details)
  unfolding ok_response
  ok-Answers details = rlp_reply-Answers mid self e _

  pub error-Answers :
      (code message : String) (details : Object)
      → Answers e (error_response mid self e code message details)
  unfolding error_response
  error-Answers code message details = rlp_reply-Answers mid self e _

  pub exception-Answers :
      (python : Interpreter) (code : String) (x : Exn)
      → ((response : Object) × (exception_response mid self python e code x ≡ ok response)
          × Answers e response)
        ⊎ ((q : ProtocolError) × (y : Exn) × (x ≡ protocol_error q)
            × (copied python q.error_data ≡ raised y)
            × (exception_response mid self python e code x ≡ raised y))
  unfolding exception_response
  exception-Answers python code (Exn.protocol_error p) =
      elim (Result-cases (copied python p.error_data)) [
        | inl (d, e) ↦ inl (rw e (_, refl, error-Answers _ _ _))
        | inr (y, e) ↦ inr (p, y, refl, e, rw e refl)
      ]
  exception-Answers python code x = inl (_, refl, error-Answers _ _ _)

  exception-IfOk :
      (python : Interpreter) (code : String) (x : Exn)
      → IfOk (Answers e) (exception_response mid self python e code x)
  exception-IfOk python code x = elim (exception-Answers python code x) [
    | inl (response, h, a) ↦ rw h a
    | inr (q, y, own, spoilt, built) ↦ rw built tt
  ]

-- A response to the message, or to the envelope that a gap makes up.
pub data Replies (gid : String) (self : Identity) (e : RlpEnvelope) (response : Object)
    : Type 0 where
  to_message : Answers e response → Replies gid self e response
  to_gap : Answers (gap_envelope gid self) response → Replies gid self e response

module _ {W : Type 0} (callbacks : Callbacks W) (python : Interpreter) (ids : Ids) where
  incremental-Replies :
      (self : Identity) (e : RlpEnvelope) (revision : ℕ) (change : Call RegistryStore ℕ)
      (s : RegistryStore)
      → IfOk (Replies ids.gap self e) (incremental ids.response ids.gap self e revision change s).0
  unfolding incremental
  incremental-Replies self e revision change s = grind (
    arith,
    to_message,
    to_gap,
    ok-Answers ids.response self e empty,
    error-Answers ids.response self (gap_envelope ids.gap self),
  )

  bind_session-Replies :
      (e : RlpEnvelope) (p : Payload.BindSessionPayload) (s : Handling W)
      → IfOk (Replies ids.gap (identity s.handler) e) (bind_session callbacks python ids e p s).0
  unfolding bind_session
  bind_session-Replies e p s = grind (
    arith,
    to_message,
    ok-Answers ids.response (identity s.handler) e,
    error-Answers ids.response (identity s.handler) e,
  )

  dispatch-Replies :
      (e : RlpEnvelope) (m : Message) (s : Handling W)
      → IfOk (Replies ids.gap (identity s.handler) e) (dispatch callbacks python ids e m s).0
  unfolding dispatch
  dispatch-Replies e (Payload.tool_upsert p) s =
      incremental-Replies (identity s.handler) e p.registry_revision (upsert_tool p.tool) s.registry
  dispatch-Replies e (Payload.tool_removed p) s =
      incremental-Replies (identity s.handler) e p.registry_revision (deregister_tool p.tool_name)
        s.registry
  dispatch-Replies e (Payload.resource_upsert p) s =
      incremental-Replies (identity s.handler) e p.registry_revision (upsert_resource p.resource)
        s.registry
  dispatch-Replies e (Payload.resource_removed p) s =
      incremental-Replies (identity s.handler) e p.registry_revision (deregister_resource p.uri)
        s.registry
  dispatch-Replies e (Payload.prompt_upsert p) s =
      incremental-Replies (identity s.handler) e p.registry_revision (upsert_prompt p.prompt)
        s.registry
  dispatch-Replies e (Payload.prompt_removed p) s =
      incremental-Replies (identity s.handler) e p.registry_revision (deregister_prompt p.name)
        s.registry
  dispatch-Replies e (Payload.bind_session p) s = bind_session-Replies e p s
  dispatch-Replies e m s = grind (
    arith,
    to_message,
    ok-Answers ids.response (identity s.handler) e,
    error-Answers ids.response (identity s.handler) e,
    exception-IfOk ids.response (identity s.handler) e python,
  )

  deliver-Replies :
      (e : RlpEnvelope) (m : Option (Checked Message)) (s : Handling W)
      → IfOk (Replies ids.gap (identity s.handler) e) (deliver callbacks python ids e m s).0
  deliver-Replies e none s = to_message (error-Answers ids.response (identity s.handler) e _ _ _)
  deliver-Replies e (some (valid m)) s = dispatch-Replies e m s
  deliver-Replies e (some (invalid _)) s = tt

  -- Whatever the message: if the handler returns, the message's envelope was accepted, and the
  -- response names the envelope's type, its execution, its sender and its request id (or its message
  -- id), or else those of the envelope that a revision gap makes up, whose request id is the new id
  -- of that envelope.
  pub handle_message-Replies :
      (models : Models) (message : Object) (s : Handling W) {response : Object}
      → (handle_message callbacks python ids models message s).0 ≡ ok response
      → (e : RlpEnvelope) × (validate_message models message ≡ ok e)
        × Replies ids.gap (identity s.handler) e response
  unfolding handle_message
  handle_message-Replies models message s h =
      elim (Result-cases (validate_message models message)) [
        | inl (e, accepted) ↦ (
          e,
          accepted,
          rw (rw accepted at h) at (deliver-Replies e (load models e.message_type e.payload) s),
        )
        | inr (x, refused) ↦ cc (rw refused at h)
      ]
