-- ===== src/Tep/Dump.antt =====
-- `model_dump()` of the payloads that the handlers keep or echo: a dict with a key for each field,
-- in the order of the class.
use naia_relay.Prelude.{ℕ, Option, none, some, [], ◌∷◌}
use naia_relay.Json.{Value, Object, object, array, null, bool, nat, str, dict, opt_str}
use naia_relay.Tep.Models.{
  ExecutionProgressPayload, ExecutionResultPayload, ExecutionErrorPayload, ResourceResultPayload,
  PromptResultPayload, PromptArgumentPayload,
}

abbrev pub opt_nat : Option ℕ → Value
opt_nat none = null
opt_nat (some n) = nat n

unfoldable pub dump_progress : ExecutionProgressPayload → Object
unfolding object
dump_progress p = object (
    ("tool_name", str p.tool_name)
    ∷ (
      "progress",
      dict (
          object (
            ("message", opt_str p.progress.message)
            ∷ ("percentage", opt_nat p.progress.percentage)
            ∷ [])),
    )
    ∷ [])

unfoldable pub dump_result : ExecutionResultPayload → Object
unfolding object
dump_result p = object (
    ("tool_name", str p.tool_name)
    ∷ ("result", dict p.result)
    ∷ ("is_error", bool p.is_error)
    ∷ ("metadata", dict p.metadata)
    ∷ [])

unfoldable pub dump_error : ExecutionErrorPayload → Object
unfolding object
dump_error p = object (
    ("tool_name", str p.tool_name)
    ∷ ("code", str p.code)
    ∷ ("message", str p.message)
    ∷ ("details", dict p.details)
    ∷ [])

unfoldable pub dump_resource_result : ResourceResultPayload → Object
unfolding object array
dump_resource_result p =
    object
      (("uri", str p.uri) ∷ ("contents", array p.contents) ∷ ("metadata", dict p.metadata) ∷ [])

unfoldable pub dump_prompt_result : PromptResultPayload → Object
unfolding object array
dump_prompt_result p =
    object
      (("name", str p.name) ∷ ("messages", array p.messages) ∷ ("metadata", dict p.metadata) ∷ [])

unfoldable pub dump_argument : PromptArgumentPayload → Object
unfolding object
dump_argument p = object (
    ("name", str p.name)
    ∷ ("description", opt_str p.description)
    ∷ ("required", bool p.required)
    ∷ [])
