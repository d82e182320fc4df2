-- ===== src/Config/Loader.antt =====
-- src/naia_relay/config/loader.py: where a configuration comes from and how it is read. The files
-- and yaml.safe_load are parameters. `D` is the type of the mappings that YAML gives.
use Prim.Native.String.{◌++◌ as ◌<>◌}
use naia_relay.Prelude.{String, Bool, Option, none, some, if◌then◌else◌, ◌==◌}
use naia_relay.Prelude.Dict.{Dict, lookup}
use naia_relay.Errors.{Exn, configuration_error, Interpreter}
use naia_relay.Call.{Result, ok, raised, map_ok}
use naia_relay.Config.{RelayAppConfig, bind_result}
use naia_relay.Config.Parse.{Fields, parse_config}

pub data SourceKind : Type 0 where
  cli_file cli_yaml env_file env_yaml : SourceKind

pub record ConfigSource : Type 0 where
  pub kind : SourceKind
  pub value : String

-- bool(text) of a text that may be None.
abbrev pub given : Option String → Option String
given none = none
given (some s) = if s == "" then none else some s

abbrev pub source : SourceKind → String → Result ConfigSource
source kind value = ok (record { kind = kind; value = value })

abbrev pub two_on_command_line : Exn
two_on_command_line =
    configuration_error "Provide only one CLI config source: --config-file or --config-yaml."

abbrev pub two_in_environment : Exn
two_in_environment = configuration_error (
    "Provide only one environment config source: NAIA_RELAY_CONFIG_FILE or "
    <> "NAIA_RELAY_CONFIG_YAML.")

abbrev pub no_source : Exn
no_source = configuration_error (
    "No configuration source provided. Use --config-file, --config-yaml, "
    <> "NAIA_RELAY_CONFIG_FILE, or NAIA_RELAY_CONFIG_YAML.")

-- The environment's part of _pick_source.
abbrev pub pick_from_environment : Option String → Option String → Result ConfigSource
pick_from_environment (some file) (some yaml) = raised two_in_environment
pick_from_environment (some file) none = source env_file file
pick_from_environment none (some yaml) = source env_yaml yaml
pick_from_environment none none = raised no_source

-- The command line's part, with what follows it.
abbrev pub pick_from_command_line :
    Option String → Option String → Result ConfigSource → Result ConfigSource
pick_from_command_line (some file) (some yaml) otherwise = raised two_on_command_line
pick_from_command_line (some file) none otherwise = source cli_file file
pick_from_command_line none (some yaml) otherwise = source cli_yaml yaml
pick_from_command_line none none otherwise = otherwise

-- dict(os.environ) if environ is None else environ
abbrev pub environment : Dict String → Option (Dict String) → Dict String
environment os_environ none = os_environ
environment os_environ (some environ) = environ

-- _pick_source. A path is true, whatever its text.
unfoldable pub pick_source :
    Dict String → Option String → Option String → Option (Dict String) → Result ConfigSource
unfolding lookup
pick_source os_environ cli_config_file cli_config_yaml environ =
    let env = environment os_environ environ in
    pick_from_command_line cli_config_file (given cli_config_yaml) (
      pick_from_environment (given (lookup "NAIA_RELAY_CONFIG_FILE" env))
        (given (lookup "NAIA_RELAY_CONFIG_YAML" env)))

-- What yaml.safe_load gives: nothing, a mapping, another value, or an exception, which is a
-- YAMLError of a text or one of another class.
pub data Yaml (D : Type 0) : Type 0 where
  empty_document : Yaml D
  mapping : D → Yaml D
  another_value : Yaml D
  yaml_error : String → Yaml D
  another_error : Exn → Yaml D

pub record Files (D : Type 0) : Type 0 where
  pub expanduser : String → Result String
  pub exists : String → Result Bool
  pub read_text : String → Result String
  pub safe_load : String → Yaml D

module _ {D : Type 0} (files : Files D) where
  abbrev pub read_file : String → Result String
  read_file path = bind_result (files.exists path) (λ there.
      if there
      then files.read_text path
      else raised (configuration_error ("Configuration file not found: " <> path)))

  unfoldable pub load_yaml_text : ConfigSource → Result String
  load_yaml_text s = elim s.kind [
    | cli_yaml ↦ ok s.value
    | env_yaml ↦ ok s.value
    | _ ↦ bind_result (files.expanduser s.value) read_file
  ]

  abbrev pub document : Yaml D → Result D
  document empty_document = raised (configuration_error "Configuration YAML is empty.")
  document (mapping d) = ok d
  document another_value =
      raised (configuration_error "Configuration YAML must evaluate to a mapping/object.")
  document (yaml_error why) = raised (configuration_error ("Invalid YAML configuration: " <> why))
  document (another_error e) = raised e

  unfoldable pub parse_yaml_document : String → Result D
  parse_yaml_document text = document (files.safe_load text)

  unfoldable pub load_config :
      Interpreter
      → Fields D
      → Dict String
      → Option String
      → Option String
      → Option (Dict String)
      → Result (RelayAppConfig × ConfigSource)
  unfolding pick_source load_yaml_text parse_yaml_document parse_config
  load_config python fields os_environ cli_config_file cli_config_yaml environ =
      bind_result (pick_source os_environ cli_config_file cli_config_yaml environ) (λ chosen.
        bind_result (load_yaml_text chosen) (λ text.
          bind_result (parse_yaml_document text)
            (λ d. map_ok (λ config. (config, chosen)) (parse_config fields python d))))
