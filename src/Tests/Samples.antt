-- ===== src/Tests/Samples.antt =====
-- Sample data of the tests.
use naia_relay.Prelude.{false, none, inl, [], ◌∷◌}
use naia_relay.Json.{Object, empty, null}
use naia_relay.Errors.{ValidationError, Interpreter, value_error}
use naia_relay.Pydantic.{Checked, invalid}
use naia_relay.Registry.Models.{ToolDefinition, authoritative, mirrored}
use naia_relay.Registry.Store.{RegistryStore, new_registry}
use naia_relay.Tep.Models.{ToolPayload}

abbrev pub python : Interpreter
python = record {
  to_dict = λ v. inl (value_error "not a dict");
  str_exc = λ e. "failed";
  type_name = λ e. "Error";
  str_value = λ v. "value";
  type_error = λ what v. "wrong type";
}

abbrev pub why : ValidationError
why = record {
  first = record { loc = []; msg = "Field required"; kind = "missing"; input = null };
  others = [];
}

abbrev pub refuse_all : {A : Type 0} → Object → Checked A
refuse_all o = invalid why

abbrev pub echo_payload : ToolPayload
echo_payload = record {
  name = "echo";
  description = "Echoes";
  input_schema = empty;
  title = none;
  output_schema = none;
  metadata = empty;
}

abbrev pub echo : ToolDefinition
echo = record {
  name = "echo";
  description = "Echoes";
  input_schema = empty;
  title = none;
  output_schema = none;
  metadata = empty;
  owner_session_id = none;
}

-- A host with the tool, at revision 1.
abbrev pub host : RegistryStore
host = record {
  mode = authoritative;
  revision = 1;
  stale = false;
  tools = ("echo", echo) ∷ [];
  resources = [];
  prompts = [];
}

abbrev pub mirror : RegistryStore
mirror = new_registry mirrored
