-- ===== src/Tests/Forwarded.antt =====
-- Runs of a client's requests that its host answers.
use naia_relay.Prelude.{◌≡◌, refl, String, none, some, false, List, [], ◌∷◌}
use naia_relay.Prelude.Dict.{lookup}
use naia_relay.Json.{Value, Object, object, array, str, dict, empty}
use naia_relay.Call.{Call, ok, pure}
use naia_relay.Pydantic.{valid}
use naia_relay.Registry.Models.{ResourceDefinition, PromptDefinition}
use naia_relay.Registry.Store.{RegistryStore, get_tool, get_resource, get_prompt}
use naia_relay.Rlp.Models.{Models, load, ExecuteToolPayload, ReadResourcePayload, GetPromptPayload}
use naia_relay.Rlp.Models as Payload
use naia_relay.Rlp.Handler.{Handling, Callbacks, new_handler, validate_message, check_envelope}
use naia_relay.Rlp.Dispatch.{handle_message}
use naia_relay.Runtime.Answering.{Reads}
use naia_relay.Runtime.Base.{new_runtime}
use naia_relay.Runtime.Client.{Link, new_link}
use naia_relay.Runtime.Direct.{look_up}
use naia_relay.Runtime.Forward.{request, call_tool, read_resource, get_prompt_messages}
use naia_relay.Runtime.Forwarded.{
  call_tool_roundtrip, read_resource_roundtrip, get_prompt_roundtrip,
}
use naia_relay.Tests.Samples.{python, host, echo}
use naia_relay.Tests.Host.{limits}
use naia_relay.Tests.Rlp.{envelope, ids, models}

abbrev executes : ExecuteToolPayload → Call Unit Object
executes p = pure (object (("ran", str p.tool_name) ∷ []))

abbrev reads : ReadResourcePayload → Call Unit (List Value)
reads p = pure (str p.uri ∷ [])

abbrev prompts : GetPromptPayload → Call Unit (List Value)
prompts p = pure (str p.name ∷ [])

abbrev answering : Callbacks Unit
answering = record {
  execute_tool = some executes;
  read_resource = some reads;
  get_prompt = some prompts;
}

abbrev echo_call : ExecuteToolPayload
echo_call = record { tool_name = "echo"; arguments = empty; context = empty; stream = false }

abbrev page_read : ReadResourcePayload
page_read = record { uri = "u1"; arguments = empty; context = empty }

abbrev greeting_get : GetPromptPayload
greeting_get = record { name = "greet"; arguments = empty; context = empty }

abbrev host_models : String → Models
host_models kind = record (models kind) {
  execute_tool = λ o. valid echo_call;
  read_resource = λ o. valid page_read;
  get_prompt = λ o. valid greeting_get;
}

abbrev page : ResourceDefinition
page = record {
  uri = "u1";
  name = "page";
  description = none;
  mime_type = none;
  metadata = empty;
  owner_session_id = none;
}

abbrev greeting : PromptDefinition
greeting = record {
  name = "greet";
  description = "";
  arguments = [];
  metadata = empty;
  owner_session_id = none;
}

abbrev mirrored : RegistryStore
mirrored = record host { resources = ("u1", page) ∷ []; prompts = ("greet", greeting) ∷ [] }

abbrev bound : String → Link (Handling Unit)
bound kind =
    record (new_link (new_runtime "client" "client1" "c1" limits)
      (record { registry = host; handler = new_handler "relay1" "s1"; world = tt })) {
        registry = mirrored;
        upstream_requester = some (handle_message answering python ids (host_models kind));
      }

found_tool : look_up python get_tool (str "echo") mirrored ≡ ok (some echo)
unfolding get_tool lookup
found_tool = refl

found_resource : look_up python get_resource (str "u1") mirrored ≡ ok (some page)
unfolding get_resource lookup
found_resource = refl

found_prompt : look_up python get_prompt (str "greet") mirrored ≡ ok (some greeting)
unfolding get_prompt lookup
found_prompt = refl

execution_read :
    Reads
      (host_models "execute_tool")
      (request
        (bound "execute_tool")
        "execute_tool"
        "m1"
        (("execution_id", str "e1") ∷ [])
        (("tool_name", str "echo") ∷ ("arguments", dict empty) ∷ []))
      (envelope "execute_tool")
      (Payload.execute_tool echo_call)
unfolding validate_message check_envelope load
execution_read = record { accepted = refl; loaded = refl }

read_read :
    Reads
      (host_models "read_resource")
      (request
        (bound "read_resource")
        "read_resource"
        "m1"
        []
        (("uri", str "u1") ∷ ("context", dict empty) ∷ []))
      (envelope "read_resource")
      (Payload.read_resource page_read)
unfolding validate_message check_envelope load
read_read = record { accepted = refl; loaded = refl }

prompt_read :
    Reads
      (host_models "get_prompt")
      (request
        (bound "get_prompt")
        "get_prompt"
        "m1"
        []
        (("name", str "greet") ∷ ("arguments", dict empty) ∷ []))
      (envelope "get_prompt")
      (Payload.get_prompt greeting_get)
unfolding validate_message check_envelope load
prompt_read = record { accepted = refl; loaded = refl }

call_tool_roundtrip_example :
    (call_tool python "m1" "e1" (str "echo") (dict empty) (bound "execute_tool")).0
    ≡ ok (dict (object (("ran", str "echo") ∷ [])))
call_tool_roundtrip_example =
    call_tool_roundtrip answering python ids (host_models "execute_tool") "m1"
      (envelope "execute_tool") (bound "execute_tool") "e1" (str "echo") (dict empty) echo_call echo
      executes (object (("ran", str "echo") ∷ [])) tt refl found_tool refl execution_read refl refl

read_resource_roundtrip_example :
    (read_resource python "m1" (str "u1") (dict empty) (bound "read_resource")).0
    ≡ ok (array (str "u1" ∷ []))
read_resource_roundtrip_example =
    read_resource_roundtrip answering python ids (host_models "read_resource") "m1"
      (envelope "read_resource") (bound "read_resource") (str "u1") (dict empty) page_read page
      reads (str "u1" ∷ []) tt refl found_resource refl read_read refl refl

get_prompt_roundtrip_example :
    (get_prompt_messages python "m1" (str "greet") (dict empty) (bound "get_prompt")).0
    ≡ ok (array (str "greet" ∷ []))
get_prompt_roundtrip_example =
    get_prompt_roundtrip answering python ids (host_models "get_prompt") "m1"
      (envelope "get_prompt") (bound "get_prompt") (str "greet") (dict empty) greeting_get greeting
      prompts (str "greet" ∷ []) tt refl found_prompt refl prompt_read refl refl
