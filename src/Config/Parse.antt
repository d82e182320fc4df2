-- ===== src/Config/Parse.antt =====
-- src/naia_relay/config/models.py: the classes from raw data to a typed configuration. `D` is the type
-- of the mappings that a configuration is read from.
use naia_relay.Config.{
  McpConfig, TcpEndpointConfig, RelayLinkConfig, RawConfig, RelayAppConfig, RoleType, direct, host,
  client, direct_config, host_config, client_config, validate_mcp, validate_endpoint,
  validate_relay_link, validate_for_role, bind_result,
}
use naia_relay.Prelude.{Option, none, some, List, [], ◌∷◌, ◌++◌}
use naia_relay.Errors.{Exn, ValidationError, validation_error, configuration_error, Interpreter}
use naia_relay.Call.{Result, ok, raised}
use naia_relay.Pydantic.{Checked, or_raise}

-- A section that is not given is not validated.
abbrev pub validate_section : {A : Type 0} → (A → Result A) → Option A → Result (Option A)
validate_section validate none = ok none
validate_section validate (some a) = bind_result (validate a) (λ a'. ok (some a'))

abbrev pub failures : {A : Type 0} → Result A → List Exn
failures (ok _) = []
failures (raised e) = e ∷ []

-- except Exception as exc: a ConfigurationError is raised as it is
abbrev pub as_configuration_error : {A : Type 0} → Interpreter → Result A → Result A
as_configuration_error python (ok a) = ok a
as_configuration_error python (raised (configuration_error why)) = raised (configuration_error why)
as_configuration_error python (raised e) = raised (configuration_error (python.str_exc e))

-- What pydantic makes of a mapping's fields before the validators run, and how it reports what the
-- validators raise and the sections that a class does not take.
pub record Fields (D : Type 0) : Type 0 where
  pub raw : D → Checked RawConfig
  pub report : List Exn → ValidationError
  pub mismatch : RawConfig → ValidationError

module _ {D : Type 0} (fields : Fields D) where
  abbrev pub reported : {A : Type 0} → Result A → Result A
  reported (ok a) = ok a
  reported (raised e) = raised (validation_error (fields.report (e ∷ [])))

  abbrev pub assemble :
      RawConfig
      → Result (Option McpConfig)
      → Result (Option TcpEndpointConfig)
      → Result (Option RelayLinkConfig)
      → Result RawConfig
  assemble r (ok m) (ok e) (ok l) = ok (record r { mcp = m; executor = e; relay_link = l })
  assemble r m e l =
      raised (validation_error (fields.report (failures m ++ failures e ++ failures l)))

  -- The validators of the sections run first, then the configuration's own.
  unfoldable pub validate_raw : RawConfig → Result RawConfig
  unfolding validate_mcp validate_endpoint validate_relay_link validate_for_role
  validate_raw r =
      bind_result
        (assemble r (validate_section validate_mcp r.mcp)
          (validate_section validate_endpoint r.executor)
          (validate_section validate_relay_link r.relay_link))
        (λ r. reported (validate_for_role r))

  -- Two sections of a typed configuration, which are validated once more.
  abbrev pub both :
      {A B : Type 0} → Result A → Result B → (A → B → RelayAppConfig) → Result RelayAppConfig
  both (ok a) (ok b) make = ok (make a b)
  both a b make = raised (validation_error (fields.report (failures a ++ failures b)))

  -- DirectConfig(**payload), HostConfig(**payload) and ClientConfig(**payload)
  abbrev pub typed :
      RawConfig
      → RoleType
      → Option McpConfig
      → Option TcpEndpointConfig
      → Option RelayLinkConfig
      → Result RelayAppConfig
  typed r direct (some m) (some e) none =
      both (validate_mcp m) (validate_endpoint e)
        (λ m e. direct_config (record { mcp = m; executor = e; relay = r.relay }))
  typed r host none (some e) (some l) =
      both (validate_endpoint e) (validate_relay_link l)
        (λ e l. host_config (record { executor = e; relay_link = l; relay = r.relay }))
  typed r client (some m) none (some l) =
      both (validate_mcp m) (validate_relay_link l)
        (λ m l. client_config (record { mcp = m; relay_link = l; relay = r.relay }))
  typed r _ _ _ _ = raised (validation_error (fields.mismatch r))

  unfoldable pub to_typed_config : RawConfig → Result RelayAppConfig
  unfolding validate_mcp validate_endpoint validate_relay_link
  to_typed_config r = typed r r.role r.mcp r.executor r.relay_link

  unfoldable pub parse_config : Interpreter → D → Result RelayAppConfig
  unfolding validate_raw to_typed_config
  parse_config python mapping = as_configuration_error python (
      bind_result (or_raise (fields.raw mapping))
        (λ r. bind_result (validate_raw r) to_typed_config))
