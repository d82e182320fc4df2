-- ===== src/Config.antt =====
-- src/naia_relay/config/models.py: the configuration classes and their validators.
pub mod Parse
pub mod Validated
pub mod Addressed
pub mod Loader
pub mod Sources
pub mod Startup
pub mod Plan
use naia_relay.Prelude.{
  ℕ, String, Bool, true, false, Option, none, some, List, [], ◌∷◌, ◌++◌, if◌then◌else◌, ◌==◌,
}
use naia_relay.Errors.{
  Exn, ValidationError, value_error, validation_error, configuration_error, Interpreter,
}
use naia_relay.Call.{Result, ok, raised}
use naia_relay.Pydantic.{Checked, or_raise}

pub data McpTransportType : Type 0 where
  stdio http : McpTransportType

pub data ExecutorTransportType : Type 0 where
  stdio_executor tcp : ExecutorTransportType

pub data RoleType : Type 0 where
  direct host client : RoleType

pub record RelayConfig : Type 0 where
  pub request_timeout_seconds : ℕ
  pub connection_timeout_seconds : ℕ
  pub heartbeat_timeout_seconds : ℕ
  pub max_message_size_bytes : ℕ
  pub max_in_flight_requests : ℕ
  pub max_queue_depth : ℕ
  pub reconnect_attempts : ℕ
  pub reject_duplicate_tool_names : Bool
  pub log_level : String

pub record McpConfig : Type 0 where
  pub transport : McpTransportType
  pub host : Option String
  pub port : Option ℕ

-- The four fields that TcpEndpointConfig and RelayLinkConfig have in common.
pub record Address : Type 0 where
  pub host : Option String
  pub port : Option ℕ
  pub bind_host : Option String
  pub bind_port : Option ℕ

pub record TcpEndpointConfig : Type 0 where
  pub transport : ExecutorTransportType
  pub address : Address

-- Its transport is always tcp.
pub record RelayLinkConfig : Type 0 where
  pub address : Address

pub record RawConfig : Type 0 where
  pub role : RoleType
  pub mcp : Option McpConfig
  pub executor : Option TcpEndpointConfig
  pub relay_link : Option RelayLinkConfig
  pub relay : RelayConfig

pub record DirectConfig : Type 0 where
  pub mcp : McpConfig
  pub executor : TcpEndpointConfig
  pub relay : RelayConfig

pub record HostConfig : Type 0 where
  pub executor : TcpEndpointConfig
  pub relay_link : RelayLinkConfig
  pub relay : RelayConfig

pub record ClientConfig : Type 0 where
  pub mcp : McpConfig
  pub relay_link : RelayLinkConfig
  pub relay : RelayConfig

pub data RelayAppConfig : Type 0 where
  direct_config : DirectConfig → RelayAppConfig
  host_config : HostConfig → RelayAppConfig
  client_config : ClientConfig → RelayAppConfig

abbrev pub localhost : String
localhost = "127.0.0.1"

-- text or "127.0.0.1"
abbrev pub or_localhost : Option String → String
or_localhost none = localhost
or_localhost (some s) = if s == "" then localhost else s

-- McpConfig.validate_transport_requirements
abbrev pub require_port : McpConfig → Option ℕ → Result McpConfig
require_port m none = raised (value_error "mcp.port is required when mcp.transport=http")
require_port m (some port) = ok m

abbrev validate_mcp_for : McpTransportType → McpConfig → Result McpConfig
validate_mcp_for stdio m = ok m
validate_mcp_for http m = require_port (record m { host = some (or_localhost m.host) }) m.port

unfoldable pub validate_mcp : McpConfig → Result McpConfig
validate_mcp m = validate_mcp_for m.transport m

abbrev pub host_or_localhost : Option String → Option String → Option String
host_or_localhost none none = some localhost
host_or_localhost given bound = given

abbrev pub require_any_port : String → Option ℕ → Option ℕ → Address → Result Address
require_any_port why none none a = raised (value_error why)
require_any_port why port bind_port a = ok a

-- The body that the other two validators share.
unfoldable pub validate_address : String → Address → Result Address
validate_address why a =
    require_any_port why a.port a.bind_port
      (record a { host = host_or_localhost a.host a.bind_host })

abbrev pub bind_result : {A B : Type 0} → Result A → (A → Result B) → Result B
bind_result (ok a) f = f a
bind_result (raised e) f = raised e

abbrev pub tcp_ports : String
tcp_ports = "tcp transport requires port or bind_port"

abbrev pub link_ports : String
link_ports = "relay_link tcp transport requires port or bind_port"

-- TcpEndpointConfig.validate_transport_requirements
abbrev validate_endpoint_for : ExecutorTransportType → TcpEndpointConfig → Result TcpEndpointConfig
validate_endpoint_for stdio_executor e = ok e
validate_endpoint_for tcp e =
    bind_result (validate_address tcp_ports e.address) (λ a. ok (record e { address = a }))

unfoldable pub validate_endpoint : TcpEndpointConfig → Result TcpEndpointConfig
unfolding validate_address
validate_endpoint e = validate_endpoint_for e.transport e

-- RelayLinkConfig.validate_transport_requirements
unfoldable pub validate_relay_link : RelayLinkConfig → Result RelayLinkConfig
unfolding validate_address
validate_relay_link l =
    bind_result (validate_address link_ports l.address) (λ a. ok (record { address = a }))

abbrev pub both_stdio : McpTransportType → ExecutorTransportType → Bool
both_stdio stdio stdio_executor = true
both_stdio _ _ = false

-- What is wrong with the sections of a configuration for its role.
abbrev pub wrong_for_role :
    RoleType → Option McpConfig → Option TcpEndpointConfig → Option RelayLinkConfig → Option String
wrong_for_role direct (some m) (some e) none =
    if both_stdio m.transport e.transport
    then some "role 'direct' cannot use stdio for both mcp and executor transports"
    else none
wrong_for_role direct (some m) (some e) (some l) = some "role 'direct' must not define 'relay_link'"
wrong_for_role direct _ _ _ = some "role 'direct' requires both 'mcp' and 'executor'"
wrong_for_role host m (some e) (some l) = elim m [
  | none ↦ none
  | some _ ↦ some "role 'host' must not define 'mcp'"
]
wrong_for_role host _ _ _ = some "role 'host' requires both 'executor' and 'relay_link'"
wrong_for_role client (some m) e (some l) = elim e [
  | none ↦ none
  | some _ ↦ some "role 'client' must not define 'executor'"
]
wrong_for_role client _ _ _ = some "role 'client' requires both 'mcp' and 'relay_link'"

unfoldable pub validate_for_role : RawConfig → Result RawConfig
validate_for_role r = elim (wrong_for_role r.role r.mcp r.executor r.relay_link) [
  | none ↦ ok r
  | some why ↦ raised (value_error why)
]
