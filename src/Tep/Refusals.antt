-- ===== src/Tep/Refusals.antt =====
-- What the handler does with a message that it refuses, and what escapes it.
use naia_relay.Prelude.{◌≡◌, String, false, none, some, List, ◌∷◌, arith}
use naia_relay.Json.{Object}
use naia_relay.Errors.{Exn, key_error, is_value_error, Interpreter}
use naia_relay.Call.{ok, raised}
use naia_relay.Pydantic.{valid}
use naia_relay.Registry.Store.{deregister_tool, get_tool}
use naia_relay.Tep.Models as Payload
use naia_relay.Tep.Models.{Message, Models, TepEnvelope, load}
use naia_relay.Tep.Handler.{
  Handling, Callbacks, dispatch, handle_message_or_error, validate_message,
}

module _ {W : Type 0} (callbacks : Callbacks W) (mid : String) (models : Models)
    (python : Interpreter) (message : Object) (s : Handling W) where
  -- Whatever the message, the callbacks and the state: no ValueError and no ValidationError leaves
  -- the handler.
  pub no_value_error_escapes :
      {x : Exn}
      → (handle_message_or_error callbacks mid models python message s).0 ≡ raised x
      → is_value_error x ≡ false
  unfolding handle_message_or_error
  no_value_error_escapes {x} h = ground arith

  -- A `deregister_tools` message with an accepted envelope and payload whose first name is not
  -- registered is not answered: a KeyError leaves the handler, and the state is as it was.
  pub deregister_unknown_escapes :
      (e : TepEnvelope) (name : String) (rest : List String)
      → validate_message models message ≡ ok e
      → load models e.message_type e.payload
        ≡ some (valid (Payload.deregister_tools (record { tool_names = name ∷ rest })))
      → get_tool name s.registry ≡ none
      → handle_message_or_error callbacks mid models python message s ≡ (raised (key_error name), s)
  unfolding handle_message_or_error dispatch deregister_tool get_tool
  deregister_unknown_escapes e name rest accepted loaded unknown = rw (accepted, loaded, unknown)
