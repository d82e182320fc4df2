-- ===== src/Runtime/Direct.antt =====
-- src/naia_relay/runtime/relay.py: DirectRelayRuntime, in which the executor and the MCP client
-- share one registry.
use Prim.Native.String.{◌++◌ as ◌<>◌}
use naia_relay.Prelude.{ℕ, ◌+◌, ◌-◌, String, Option, none, some, [], ◌∷◌}
use naia_relay.Json.{Value, Object, object, array, str, dict, arr}
use naia_relay.Errors.{Exn, protocol_error, other_error, Interpreter, to_text}
use naia_relay.Call.{Call, Result, ok, raised, pure, modify, finally, zoom, ◌>>◌}
use naia_relay.Pydantic.{Checked}
use naia_relay.Registry.Models.{authoritative}
use naia_relay.Registry.Store.{RegistryStore, new_registry, get_tool, get_resource, get_prompt}
use naia_relay.Runtime.Base.{BaseRuntime}
use naia_relay.Runtime.Serve.{Holds}
use naia_relay.Runtime.Serve as Serve
use naia_relay.Mcp.Response.{JsonRpcRequest}
use naia_relay.Mcp.Handler as Mcp
use naia_relay.Mcp.Handler.{McpHandler}
use naia_relay.Tep.Models.{Models}
use naia_relay.Tep.Handler as Tep
use naia_relay.Tep.Handler.{TepHandler}

-- What the MCP callbacks reach.
pub record DirectWorld : Type 0 where
  pub base : BaseRuntime
  pub registry : RegistryStore

pub record DirectRuntime : Type 0 where
  pub world : DirectWorld
  pub mcp_handler : McpHandler
  pub tep_handler : TepHandler

-- DirectRelayRuntime and __post_init__
abbrev pub new_direct : BaseRuntime → DirectRuntime
new_direct base = record {
  world = record { base = base; registry = new_registry authoritative };
  mcp_handler = Mcp.new_handler;
  tep_handler = Tep.new_handler;
}

abbrev pub direct_holds : Holds DirectRuntime
direct_holds = record {
  base = λ s. s.world.base;
  update = λ f s. record s { world = record s.world { base = f s.world.base } };
}

-- A lookup whose key is what the request holds: `dict.get` finds nothing under a key that is no
-- text, and raises on a list or a dict, which has no hash.
abbrev pub look_up :
    {D : Type 0}
    → Interpreter
    → (String → RegistryStore → Option D)
    → Value
    → RegistryStore
    → Result (Option D)
look_up python find (str name) store = ok (find name store)
look_up python find (arr vs) store =
    raised (other_error "TypeError" (python.type_error "hash" (arr vs)))
look_up python find (dict o) store =
    raised (other_error "TypeError" (python.type_error "hash" (dict o)))
look_up python find v store = ok none

-- ProtocolError(f"Unknown tool: {name}", code="unknown_tool", data={"tool_name": name})
unfoldable pub unknown_target : Interpreter → String → String → String → Value → Exn
unfolding object
unknown_target python what code key name = protocol_error (record {
  message = "Unknown " <> what <> ": " <> to_text python name;
  code = code;
  error_data = dict (object ((key, name) ∷ []));
})

-- {"content": [{"type": "text", "text": f"{name}:{arguments}"}]}
unfoldable pub echoed : Interpreter → Value → Value → Object
unfolding object array
echoed python name arguments = object (
    (
      "content",
      array (
          dict (
            object (
              ("type", str "text")
              ∷ ("text", str (to_text python name <> ":" <> to_text python arguments))
              ∷ []))
          ∷ []),
    )
    ∷ [])

-- [{"role": "user", "content": {"name": name, "arguments": arguments}}]
unfoldable pub user_message : Value → Value → Value
unfolding object array
user_message name arguments = array (
    dict (
      object (
        ("role", str "user")
        ∷ ("content", dict (object (("name", name) ∷ ("arguments", arguments) ∷ [])))
        ∷ []))
    ∷ [])

module _ (python : Interpreter) where
  abbrev pub run_execution : Value → Value → Call DirectWorld Object
  run_execution name arguments w = elim (look_up python get_tool name w.registry) [
    | raised e ↦ (raised e, w)
    | ok none ↦ (raised (unknown_target python "tool" "unknown_tool" "tool_name" name), w)
    | ok (some _) ↦ (ok (echoed python name arguments), w)
  ]

  unfoldable pub call_tool : Value → Value → Call DirectWorld Object
  call_tool name arguments =
      modify (λ w. record w {
        base = record w.base {
          stats = record w.base.stats { active_executions = w.base.stats.active_executions + 1 };
        };
      })
      >> finally (run_execution name arguments) (λ w. record w {
        base = record w.base {
          stats = record w.base.stats { active_executions = w.base.stats.active_executions - 1 };
        };
      })

  unfoldable pub read_resource : Value → Value → Call DirectWorld Value
  unfolding object array
  read_resource uri arguments w = elim (look_up python get_resource uri w.registry) [
    | raised e ↦ (raised e, w)
    | ok none ↦ (raised (unknown_target python "resource" "unknown_resource" "uri" uri), w)
    | ok (some _) ↦
        (ok (array (dict (object (("uri", uri) ∷ ("arguments", arguments) ∷ [])) ∷ [])), w)
  ]

  unfoldable pub get_prompt_messages : Value → Value → Call DirectWorld Value
  unfolding user_message
  get_prompt_messages name arguments w = elim (look_up python get_prompt name w.registry) [
    | raised e ↦ (raised e, w)
    | ok none ↦ (raised (unknown_target python "prompt" "unknown_prompt" "name" name), w)
    | ok (some _) ↦ (ok (user_message name arguments), w)
  ]

  abbrev pub mcp_callbacks : Mcp.Callbacks DirectWorld
  mcp_callbacks = record {
    execute_tool = some call_tool;
    read_resource = some read_resource;
    get_prompt = some get_prompt_messages;
  }

  module _ (check : Object → Checked JsonRpcRequest) where
    abbrev pub mcp_call : Object → Call DirectRuntime (Option Object)
    mcp_call message =
        zoom (λ s. record { handler = s.mcp_handler; world = s.world })
          (λ h s. record s { mcp_handler = h.handler; world = h.world })
          (Mcp.handle_message (λ w. w.registry) mcp_callbacks python check message)

    -- DirectRelayRuntime.handle_mcp_message
    unfoldable pub handle_mcp_message :
        Option (DirectRuntime → DirectRuntime) → Object → Call DirectRuntime (Option Object)
    handle_mcp_message expiry message =
        Serve.handle_mcp_message direct_holds expiry (mcp_call message)

  -- The executor callbacks that the TEP handler is built with: each only echoes its payload.
  abbrev pub tep_callbacks : Tep.Callbacks Unit
  tep_callbacks = record {
    execute_tool = some (λ p. pure (echoed python (str p.tool_name) (dict p.arguments)));
    read_resource =
        some
          (λ p. pure (dict (object (("uri", str p.uri) ∷ ("context", dict p.context) ∷ [])) ∷ []));
    get_prompt = some (λ p. pure (
        dict (
          object (
            ("role", str "user")
            ∷ (
              "content",
              dict (object (("name", str p.name) ∷ ("arguments", dict p.arguments) ∷ [])),
            )
            ∷ []))
        ∷ []));
  }

  abbrev pub tep_call : Models → String → Object → Call DirectRuntime Object
  tep_call models mid message =
      zoom (λ s. record { registry = s.world.registry; handler = s.tep_handler; world = tt })
        (λ h s. record s {
          tep_handler = h.handler;
          world = record s.world { registry = h.registry };
        })
        (Tep.handle_message tep_callbacks mid models message)

  -- DirectRelayRuntime.handle_tep_message
  unfoldable pub handle_tep_message :
      Models
      → String
      → ℕ
      → Option (DirectRuntime → DirectRuntime)
      → Object
      → Call DirectRuntime Object
  handle_tep_message models mid now expiry =
      Serve.handle_message direct_holds now expiry (tep_call models mid)
