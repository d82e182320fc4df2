-- ===== src/Tep/Correlation.antt =====
-- Every answer of the handler names the request that it answers.
use Prim.Native.String.{◌++◌ as ◌<>◌}
use naia_relay.Prelude.{◌≡◌, refl, String, Option, none, some, arith, inl, inr}
use naia_relay.Json.{Object, get, str, opt_str}
use naia_relay.Call.{ok, IfOk, Result-cases}
use naia_relay.Pydantic.{Checked, valid, invalid}
use naia_relay.Tep.Models as Payload
use naia_relay.Tep.Models.{Message, Models, TepEnvelope, load}
use naia_relay.Tep.Response.{or_else, tep_reply, ok_response, error_response}
use naia_relay.Tep.Handler.{
  Handling, Callbacks, dispatch, deliver, handle_message, validate_message,
}

-- The fields of a response that tie it to the message with this envelope.
pub record Answers (e : TepEnvelope) (response : Object) : Type 0 where
  pub protocol : get "protocol" response ≡ some (str "tep")
  pub message_type : get "message_type" response ≡ some (str (e.message_type <> "_response"))
  pub session_id : get "session_id" response ≡ some (opt_str e.session_id)
  pub request_id : get "request_id" response ≡ some (str (or_else e.request_id e.message_id))
  pub execution_id : get "execution_id" response ≡ some (opt_str e.execution_id)

tep_reply-Answers : (mid : String) (e : TepEnvelope) (p : Object) → Answers e (tep_reply mid e p)
unfolding tep_reply get
tep_reply-Answers mid e p = record {
  protocol = refl;
  message_type = refl;
  session_id = refl;
  request_id = refl;
  execution_id = refl;
}

module _ {W : Type 0} (callbacks : Callbacks W) (mid : String) (e : TepEnvelope) where
  ok-Answers : (details : Object) → Answers e (ok_response mid e details)
  unfolding ok_response
  ok-Answers details = tep_reply-Answers mid e _

  error-Answers : (code message : String) → Answers e (error_response mid e code message)
  unfolding error_response
  error-Answers code message = tep_reply-Answers mid e _

  dispatch-Answers :
      (m : Message) (s : Handling W) → IfOk (Answers e) (dispatch callbacks mid e m s).0
  unfolding dispatch
  dispatch-Answers (Payload.register_tools p) s = grind (arith, ok-Answers)
  dispatch-Answers m s = grind (arith, ok-Answers, error-Answers)

  deliver-Answers :
      (m : Option (Checked Message)) (s : Handling W)
      → IfOk (Answers e) (deliver callbacks mid e m s).0
  deliver-Answers none s = error-Answers _ _
  deliver-Answers (some (valid m)) s = dispatch-Answers m s
  deliver-Answers (some (invalid _)) s = tt

-- Whatever the message and whatever its callbacks do: if the handler returns, then the
-- message's envelope was accepted, and the response carries that envelope's session and execution, its
-- request id (its message id, if it has none) and its type with the suffix `_response`.
pub handle_message-Answers :
    {W : Type 0} (callbacks : Callbacks W) (mid : String) (models : Models) (message : Object)
    (s : Handling W) {response : Object}
    → (handle_message callbacks mid models message s).0 ≡ ok response
    → (e : TepEnvelope) × (validate_message models message ≡ ok e) × Answers e response
unfolding handle_message
handle_message-Answers callbacks mid models message s {response} h =
    elim (Result-cases (validate_message models message)) [
      | inl (e, accepted) ↦ (
        e,
        accepted,
        rw (rw accepted at h) at
            (deliver-Answers callbacks mid e (load models e.message_type e.payload) s),
      )
      | inr (x, refused) ↦ cc (rw refused at h)
    ]
