-- ===== src/Rlp/Dump.antt =====
-- `model_dump()` of the payloads of src/naia_relay/protocols/rlp/models.py that the handler keeps and
-- echoes.
use naia_relay.Prelude.{[], ◌∷◌}
use naia_relay.Json.{Object, object, array, bool, str, dict, opt_str}
use naia_relay.Tep.Dump.{opt_nat}
use naia_relay.Rlp.Models.{
  ExecutionProgressPayload, ExecutionResultPayload, ExecutionErrorPayload, ResourceResultPayload,
  PromptResultPayload,
}

unfoldable pub dump_progress : ExecutionProgressPayload → Object
unfolding object
dump_progress p = object (
    ("tool_name", str p.tool_name)
    ∷ (
      "progress",
      dict (
          object (
            ("message", opt_str p.progress.message)
            ∷ ("percentage", opt_nat p.progress.percentage)
            ∷ [])),
    )
    ∷ [])

unfoldable pub dump_result : ExecutionResultPayload → Object
unfolding object
dump_result p = object (
    ("tool_name", str p.tool_name)
    ∷ ("result", dict p.result)
    ∷ ("is_error", bool p.is_error)
    ∷ ("metadata", dict p.metadata)
    ∷ [])

unfoldable pub dump_error : ExecutionErrorPayload → Object
unfolding object
dump_error p = object (
    ("tool_name", str p.tool_name)
    ∷ ("code", str p.code)
    ∷ ("message", str p.message)
    ∷ ("details", dict p.details)
    ∷ [])

unfoldable pub dump_resource_result : ResourceResultPayload → Object
unfolding object array
dump_resource_result p =
    object
      (("uri", str p.uri) ∷ ("contents", array p.contents) ∷ ("metadata", dict p.metadata) ∷ [])

unfoldable pub dump_prompt_result : PromptResultPayload → Object
unfolding object array
dump_prompt_result p =
    object
      (("name", str p.name) ∷ ("messages", array p.messages) ∷ ("metadata", dict p.metadata) ∷ [])
