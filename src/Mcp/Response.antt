-- ===== src/Mcp/Response.antt =====
-- src/naia_relay/protocols/mcp: the request model, the responses, and what the lists show of the
-- registry's items.
use naia_relay.Prelude.{
  String, Bool, true, Option, none, some, [], ◌∷◌, ◌++◌, map, ◌==◌, if◌then◌else◌,
}
use naia_relay.Json.{
  Value, Object, object, array, bool, str, dict, get, empty, field, ℤ, num, negsuc,
}
use naia_relay.Registry.Models.{ToolDefinition, ResourceDefinition, PromptDefinition}
use naia_relay.Prelude.Dict.Maps.{map_option}
use naia_relay.Rlp.Serialize.{unless_none}

-- class JsonRpcRequest; the id is a text, an integer or None.
pub record JsonRpcRequest : Type 0 where
  pub jsonrpc : String
  pub id : Value
  pub method : String
  pub params : Object

abbrev pub default_protocol_version : String
default_protocol_version = "2025-06-18"

-- `requested in SUPPORTED_PROTOCOL_VERSIONS`
unfoldable pub is_supported : String → Bool
is_supported v = if v == "2025-06-18" then true else v == "2025-03-26"

unfoldable pub negotiate : Option Value → String
negotiate (some (str v)) = if is_supported v then v else default_protocol_version
negotiate _ = default_protocol_version

unfoldable pub negotiate_protocol_version : Object → String
unfolding negotiate
negotiate_protocol_version params = negotiate (get "protocolVersion" params)

unfoldable pub result_response : Value → Object → Object
unfolding object
result_response id result =
    object (("jsonrpc", str "2.0") ∷ ("id", id) ∷ ("result", dict result) ∷ [])

-- The two codes that the handler answers with: -32601 and -32000.
abbrev pub method_not_found : ℤ
method_not_found = negsuc 32600

abbrev pub server_error : ℤ
server_error = negsuc 31999

unfoldable pub error_response : Value → ℤ → String → Object → Object
unfolding object
error_response id code message extra = object (
    ("jsonrpc", str "2.0")
    ∷ ("id", id)
    ∷ (
      "error",
      dict (object (("code", num code) ∷ ("message", str message) ∷ ("data", dict extra) ∷ [])),
    )
    ∷ [])

unfoldable pub serialize_tool : ToolDefinition → Object
unfolding object
serialize_tool tool = object (
    (("name", str tool.name)
      ∷ ("description", str tool.description)
      ∷ ("inputSchema", dict tool.input_schema)
      ∷ [])
    ++ unless_none "title" (map_option str tool.title)
    ++ unless_none "outputSchema" (map_option dict tool.output_schema))

unfoldable pub serialize_resource : ResourceDefinition → Object
unfolding object
serialize_resource resource = object (
    (("uri", str resource.uri) ∷ ("name", str resource.name) ∷ [])
    ++ unless_none "description" (map_option str resource.description)
    ++ unless_none "mimeType" (map_option str resource.mime_type))

-- The dict that `prompts/list` builds for each prompt.
unfoldable pub list_prompt : PromptDefinition → Object
unfolding object array
list_prompt prompt = object (
    ("name", str prompt.name)
    ∷ ("description", str prompt.description)
    ∷ ("arguments", array (map dict prompt.arguments))
    ∷ [])

abbrev pub changing : Value
changing = dict (field "listChanged" (bool true) empty)

-- The result of `initialize`.
unfoldable pub initialize_result : Object → Object
unfolding object negotiate_protocol_version
initialize_result params = object (
    ("protocolVersion", str (negotiate_protocol_version params))
    ∷ (
      "capabilities",
      dict (
          object (
            ("tools", changing)
            ∷ ("resources", changing)
            ∷ ("prompts", changing)
            ∷ ("logging", dict empty)
            ∷ [])),
    )
    ∷ ("serverInfo", dict (object (("name", str "naia-relay") ∷ ("version", str "0.1.0") ∷ [])))
    ∷ [])

-- `data or {"message": message}` treats an empty dict as none.
unfoldable pub log_data : String → Option Object → Object
unfolding object
log_data message none = object (("message", str message) ∷ [])
log_data message (some empty) = object (("message", str message) ∷ [])
log_data message (some o) = o

unfoldable pub make_log_notification : String → String → Option Object → Object
unfolding object log_data
make_log_notification level message extra = object (
    ("jsonrpc", str "2.0")
    ∷ ("method", str "notifications/message")
    ∷ (
      "params",
      dict (object (("level", str level) ∷ ("data", dict (log_data message extra)) ∷ [])),
    )
    ∷ [])
