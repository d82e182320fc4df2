-- ===== src/Tep/Response.antt =====
-- src/naia_relay/protocols/tep/handler.py: the responses. `mid` is the id that `new_message_id`
-- gives the response.
use Prim.Native.String.{◌++◌ as ◌<>◌}
use naia_relay.Prelude.{String, Option, none, some, List, [], ◌∷◌, map, ◌==◌, if◌then◌else◌}
use naia_relay.Json.{
  Value, Object, object, array, null, nat, str, dict, get, decimal, truthy, opt_str, empty,
}
use naia_relay.Errors.{Exn, validation_error, ErrorItem, LocPart, key, index, Interpreter, to_text}
use naia_relay.Tep.Models.{TepEnvelope}

-- `request_id or message_id`
unfoldable pub or_else : Option String → String → String
or_else none d = d
or_else (some s) d = if s == "" then d else s

-- StatusPayload(status="ok", details=details).model_dump()
unfoldable pub ok_status : Object → Object
unfolding object
ok_status details =
    object
      (("status", str "ok") ∷ ("code", null) ∷ ("message", null) ∷ ("details", dict details) ∷ [])

-- StatusPayload(status="error", code=code, message=message, details=details).model_dump()
unfoldable pub error_status : String → String → Object → Object
unfolding object
error_status code message details = object (
    ("status", str "error")
    ∷ ("code", str code)
    ∷ ("message", str message)
    ∷ ("details", dict details)
    ∷ [])

-- The dict that both response builders return.
unfoldable pub tep_reply : String → TepEnvelope → Object → Object
unfolding object or_else
tep_reply mid envelope payload = object (
    ("protocol", str "tep")
    ∷ ("version", str "1.0")
    ∷ ("message_type", str (envelope.message_type <> "_response"))
    ∷ ("message_id", str mid)
    ∷ ("session_id", opt_str envelope.session_id)
    ∷ ("request_id", str (or_else envelope.request_id envelope.message_id))
    ∷ ("execution_id", opt_str envelope.execution_id)
    ∷ ("payload", dict payload)
    ∷ [])

unfoldable pub ok_response : String → TepEnvelope → Object → Object
unfolding tep_reply ok_status
ok_response mid envelope details = tep_reply mid envelope (ok_status details)

unfoldable pub error_response : String → TepEnvelope → String → String → Object
unfolding tep_reply error_status
error_response mid envelope code message = tep_reply mid envelope (error_status code message empty)

-- str(part)
part_text : LocPart → String
part_text (key s) = s
part_text (index n) = decimal n

part_value : LocPart → Value
part_value (key s) = str s
part_value (index n) = nat n

-- ".".join(parts)
join_dots : List String → String
join_dots [] = ""
join_dots (s ∷ []) = s
join_dots (s ∷ t ∷ r) = s <> "." <> join_dots (t ∷ r)

module _ (python : Interpreter) where
  unfoldable pub format_validation_message : Exn → String
  unfolding part_text join_dots or_else
  format_validation_message (validation_error e) =
      "Invalid TEP payload at "
      <> or_else (some (join_dots (map part_text e.first.loc))) "message"
      <> ": "
      <> e.first.msg
  format_validation_message e = python.str_exc e

  -- One entry of the list `validation_errors`.
  unfoldable pub item_details : ErrorItem → Value
  unfolding object array part_value
  item_details item = dict (
      object (
        ("loc", array (map part_value item.loc))
        ∷ ("msg", str item.msg)
        ∷ ("type", str item.kind)
        ∷ ("input", item.input)
        ∷ []))

  unfoldable pub validation_details : Exn → List Value
  unfolding item_details object array
  validation_details (validation_error e) = item_details e.first ∷ map item_details e.others
  validation_details e =
      dict (
        object
          (("loc", array []) ∷ ("msg", str (python.str_exc e)) ∷ ("type", str "value_error") ∷ []))
      ∷ []

  -- The value of a key, or None.
  unfoldable pub field_or_null : String → Object → Value
  field_or_null k message = elim (get k message) [ none ↦ null | some v ↦ v ]

  -- The first of two values that is true, or the second.
  unfoldable pub first_true : Value → Value → Value
  first_true v w = if truthy v then v else w

  abbrev pub hint : String
  hint =
      "Check required fields and JSON object fields such as metadata/details; Lua empty tables may need to be encoded as objects rather than arrays."

  unfoldable pub build_validation_error_response : String → Object → Exn → Object
  unfolding object array field_or_null first_true error_status
  build_validation_error_response mid message e = object (
      ("protocol", str "tep")
      ∷ ("version", str (to_text python (first_true (field_or_null "version" message) (str "1.0"))))
      ∷ (
        "message_type",
        str (
            to_text python
              (first_true (field_or_null "message_type" message) (str "invalid_message"))
            <> "_response"),
      )
      ∷ ("message_id", str mid)
      ∷ ("session_id", field_or_null "session_id" message)
      ∷ (
        "request_id",
        first_true (field_or_null "request_id" message) (field_or_null "message_id" message),
      )
      ∷ ("execution_id", field_or_null "execution_id" message)
      ∷ (
        "payload",
        dict (
            error_status
              (if truthy (field_or_null "message_type" message)
                then "invalid_payload"
                else "invalid_message")
              (format_validation_message e)
              (object
                (("validation_errors", array (validation_details e)) ∷ ("hint", str hint) ∷ []))),
      )
      ∷ [])
