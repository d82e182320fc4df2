-- ===== src/Config/Sources.antt =====
-- Which source a configuration is read from, and how loading one can fail.
use naia_relay.Prelude.{◌≡◌, ◌⊎◌, String, Option, none, some, List, [], ◌∷◌}
use naia_relay.Prelude.Dict.{Dict, lookup}
use naia_relay.Errors.{Exn}
use naia_relay.Call.{Result, ok, raised}
use naia_relay.Config.Addressed.{IsConfigurationError}
use naia_relay.Config.Loader.{
  SourceKind, cli_file, cli_yaml, env_file, env_yaml, ConfigSource, given, environment,
  two_on_command_line, two_in_environment, no_source, another_error, Files,
}

-- The sources that are there, of those that a level can have.
abbrev offered : List (SourceKind × Option String) → List ConfigSource
offered [] = []
offered ((kind, none) ∷ rest) = offered rest
offered ((kind, some value) ∷ rest) = record { kind = kind; value = value } ∷ offered rest

-- A level with one source decides; one with more is refused; one with none leaves it to the next.
abbrev decide : Exn → List ConfigSource → Result ConfigSource → Result ConfigSource
decide why [] next = next
decide why (only ∷ []) next = ok only
decide why (s ∷ t ∷ rest) next = raised why

abbrev on_command_line : Option String → Option String → List ConfigSource
on_command_line file yaml = offered ((cli_file, file) ∷ (cli_yaml, given yaml) ∷ [])

abbrev in_environment : Dict String → List ConfigSource
in_environment env = offered (
    (env_file, given (lookup "NAIA_RELAY_CONFIG_FILE" env))
    ∷ (env_yaml, given (lookup "NAIA_RELAY_CONFIG_YAML" env))
    ∷ [])

-- The sources by level, the command line before the environment.
abbrev by_level :
    Dict String → Option String → Option String → Option (Dict String) → Result ConfigSource
by_level os_environ file yaml environ =
    decide two_on_command_line (on_command_line file yaml) (
      decide two_in_environment (in_environment (environment os_environ environ))
        (raised no_source))

module _ {D : Type 0} (files : Files D) where
  -- A ConfigurationError, or what expanding, finding or reading a file, or reading a YAML text, raises
  -- on its own.
  abbrev pub IsLoadFailure : Exn → Type 0
  IsLoadFailure x =
      IsConfigurationError x
      ⊎ ((path : String) × ((files.expanduser path ≡ raised x)
            ⊎ (files.exists path ≡ raised x)
            ⊎ (files.read_text path ≡ raised x)))
      ⊎ ((text : String) × (files.safe_load text ≡ another_error x))
