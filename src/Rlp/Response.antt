-- ===== src/Rlp/Response.antt =====
-- src/naia_relay/protocols/rlp/handler.py: the responses. `mid` is the id that `new_message_id`
-- gives the response.
use Prim.Native.String.{◌++◌ as ◌<>◌}
use naia_relay.Prelude.{String, none, some, inl, inr, [], ◌∷◌}
use naia_relay.Json.{Value, Object, object, str, dict, opt_str, set_default, empty}
use naia_relay.Errors.{Exn, protocol_error, Interpreter}
use naia_relay.Call.{Result, ok, raised, map_ok}
use naia_relay.Tep.Response.{or_else, ok_status, error_status}
use naia_relay.Rlp.Models.{RlpEnvelope}

-- The handler's names for itself and its session.
pub record Identity : Type 0 where
  pub host_relay_id : String
  pub relay_session_id : String

-- The dict that both response builders return.
unfoldable pub rlp_reply : String → Identity → RlpEnvelope → Object → Object
unfolding object or_else
rlp_reply mid self envelope payload = object (
    ("protocol", str "rlp")
    ∷ ("version", str "1.0")
    ∷ ("message_type", str (envelope.message_type <> "_response"))
    ∷ ("message_id", str mid)
    ∷ ("relay_session_id", str self.relay_session_id)
    ∷ ("source_relay_id", str self.host_relay_id)
    ∷ ("target_relay_id", opt_str envelope.source_relay_id)
    ∷ ("request_id", str (or_else envelope.request_id envelope.message_id))
    ∷ ("execution_id", opt_str envelope.execution_id)
    ∷ ("payload", dict payload)
    ∷ [])

unfoldable pub ok_response : String → Identity → RlpEnvelope → Object → Object
unfolding rlp_reply ok_status
ok_response mid self envelope details = rlp_reply mid self envelope (ok_status details)

unfoldable pub error_response : String → Identity → RlpEnvelope → String → String → Object → Object
unfolding rlp_reply error_status
error_response mid self envelope code message details =
    rlp_reply mid self envelope (error_status code message details)

-- The details that are missing from an exception's own data.
unfoldable pub with_exception : Interpreter → Exn → Object → Object
unfolding set_default
with_exception python e details =
    set_default "detail" (str (python.str_exc e))
      (set_default "exception_type" (str (python.type_name e)) details)

-- dict(exc.data)
abbrev pub copied : Interpreter → Value → Result Object
copied python (dict o) = ok o
copied python v = elim (python.to_dict v) [ inl x ↦ raised x | inr o ↦ ok o ]

-- `_exception_response`: a ProtocolError keeps its code and its data, of which a copy is made.
unfoldable pub exception_response :
    String → Identity → Interpreter → RlpEnvelope → String → Exn → Result Object
unfolding error_response with_exception object
exception_response mid self python envelope default_code (protocol_error p) =
    map_ok
      (λ details.
        error_response mid self envelope p.code (python.str_exc (protocol_error p))
          (with_exception python (protocol_error p) details))
      (copied python p.error_data)
exception_response mid self python envelope default_code e = ok (
    error_response mid self envelope default_code (python.str_exc e) (
      object
        (("exception_type", str (python.type_name e)) ∷ ("detail", str (python.str_exc e)) ∷ [])))

-- The envelope that `_validate_incremental_revision` answers in place of the message's own. `gid` is
-- its new id.
unfoldable pub gap_envelope : String → Identity → RlpEnvelope
gap_envelope gid self = record {
  protocol = "rlp";
  version = "1.0";
  message_type = "revision_gap";
  message_id = gid;
  relay_session_id = some self.relay_session_id;
  source_relay_id = some self.host_relay_id;
  target_relay_id = none;
  request_id = none;
  execution_id = none;
  payload = empty;
}
