-- ===== src/Config/Startup.antt =====
-- src/naia_relay/runtime/relay.py, run_from_config, and src/naia_relay/cli.py, main and
-- resolve_ready_file: the order in which a configured runtime is started, announced and served.
-- `perform` does one action; what it does to sockets and files is a parameter. Logging is left out.
use naia_relay.Prelude.{ℕ, String, Bool, true, false, Option, none, some, [], ◌∷◌, if◌then◌else◌}
use naia_relay.Prelude.Dict.{Dict, lookup}
use naia_relay.Errors.{configuration_error, Interpreter}
use naia_relay.Call.{Call, Result, ok, raised, map_ok, pure, raise, catch, lift, ◌>>=◌, ◌>>◌}
use naia_relay.Config.{
  RelayAppConfig, direct_config, host_config, client_config, McpConfig, TcpEndpointConfig, Address,
  McpTransportType, stdio, http, stdio_executor, tcp, or_localhost,
}
use naia_relay.Config.Parse.{Fields}
use naia_relay.Config.Loader.{Files, load_config, given}

pub data Action : Type 0 where
  start_runtime stop_runtime auto_bind serve_mcp_stdio serve_tep_stdio wait : Action
  listen_tep listen_mcp : String → ℕ → Action
  listen_rlp : ℕ → Action
  write_readiness_file : String → Action

-- getattr(config, "mcp", None) and its kin
abbrev pub mcp_of : RelayAppConfig → Option McpConfig
mcp_of (direct_config c) = some c.mcp
mcp_of (host_config c) = none
mcp_of (client_config c) = some c.mcp

abbrev pub executor_of : RelayAppConfig → Option TcpEndpointConfig
executor_of (direct_config c) = some c.executor
executor_of (host_config c) = some c.executor
executor_of (client_config c) = none

-- The classes that have handle_mcp_message, and those that have handle_tep_message.
abbrev pub speaks_mcp : RelayAppConfig → Bool
speaks_mcp (host_config c) = false
speaks_mcp _ = true

abbrev pub speaks_tep : RelayAppConfig → Bool
speaks_tep (client_config c) = false
speaks_tep _ = true

-- executor.bind_host or executor.host or "127.0.0.1"
abbrev pub tep_host : Address → String
tep_host a = elim (given a.bind_host) [ some h ↦ h | none ↦ or_localhost a.host ]

module _ {W : Type 0} (perform : Action → Call W Unit) where
  abbrev pub listen_if : (ℕ → Action) → Option ℕ → Call W Unit
  listen_if listen none = pure tt
  listen_if listen (some port) = perform (listen port)

  abbrev pub open_tep : Option TcpEndpointConfig → Call W Unit
  open_tep none = pure tt
  open_tep (some e) = elim e.transport [
    | stdio_executor ↦ pure tt
    | tcp ↦ listen_if (listen_tep (tep_host e.address)) e.address.bind_port
  ]

  abbrev pub require_mcp_port : String → Option ℕ → Call W Unit
  require_mcp_port bind_host none =
      raise (configuration_error "mcp.port is required when mcp.transport=http")
  require_mcp_port bind_host (some port) = perform (listen_mcp bind_host port)

  abbrev pub open_mcp : Option McpConfig → Call W Unit
  open_mcp none = pure tt
  open_mcp (some m) = elim m.transport [
    | stdio ↦ pure tt
    | http ↦ require_mcp_port (or_localhost m.host) m.port
  ]

  abbrev pub open_relay_link : RelayAppConfig → Call W Unit
  open_relay_link (direct_config c) = pure tt
  open_relay_link (host_config c) = listen_if listen_rlp c.relay_link.address.bind_port
  open_relay_link (client_config c) = perform auto_bind

  abbrev pub announce : Option String → Call W Unit
  announce none = pure tt
  announce (some path) = perform (write_readiness_file path)

  -- The wait ends by a cancellation only; the runtime is stopped, and the exception goes on.
  abbrev pub wait_for_cancellation : Call W Unit
  wait_for_cancellation = catch (perform wait) (λ e. perform stop_runtime >> raise e)

  abbrev serve_mcp : McpTransportType → Call W Unit
  serve_mcp stdio = perform serve_mcp_stdio
  serve_mcp http = wait_for_cancellation

  -- The `else` of `if once`, with the sections that the runtime speaks for.
  abbrev pub serve_sections : Option McpConfig → Option TcpEndpointConfig → Call W Unit
  serve_sections (some m) none = serve_mcp m.transport
  serve_sections (some m) (some e) = elim e.transport [
    | stdio_executor ↦ elim m.transport [
      | stdio ↦ perform serve_mcp_stdio
      | http ↦ perform serve_tep_stdio
    ]
    | tcp ↦ serve_mcp m.transport
  ]
  serve_sections none (some e) = elim e.transport [
    | stdio_executor ↦ perform serve_tep_stdio
    | tcp ↦ wait_for_cancellation
  ]
  serve_sections none none = wait_for_cancellation

  abbrev pub serve : RelayAppConfig → Call W Unit
  serve c =
      serve_sections (if speaks_mcp c then mcp_of c else none)
        (if speaks_tep c then executor_of c else none)

  unfoldable pub run_from_config : RelayAppConfig → Bool → Option String → Call W Unit
  run_from_config c once ready_file =
      perform start_runtime
      >> open_tep (executor_of c)
      >> open_mcp (mcp_of c)
      >> open_relay_link c
      >> announce ready_file
      >> (if once then perform stop_runtime else serve c)

-- environ or dict(os.environ): an empty mapping is false.
abbrev pub environ_or : Dict String → Option (Dict String) → Dict String
environ_or os_environ none = os_environ
environ_or os_environ (some []) = os_environ
environ_or os_environ (some (e ∷ es)) = e ∷ es

-- cli.resolve_ready_file
unfoldable pub resolve_ready_file :
    (String → Result String)
    → Dict String
    → Option String
    → Option (Dict String)
    → Result (Option String)
unfolding lookup
resolve_ready_file expanduser os_environ (some cli_ready_file) environ = ok (some cli_ready_file)
resolve_ready_file expanduser os_environ none environ =
    elim (given (lookup "NAIA_RELAY_READY_FILE" (environ_or os_environ environ))) [
      | none ↦ ok none
      | some f ↦ map_ok some (expanduser f)
    ]

-- cli.main: the exit status, or what escapes.
abbrev pub exit_status : {A W : Type 0} → Result A → Call W ℕ
exit_status (ok a) = pure 0
exit_status (raised (configuration_error why)) = pure 2
exit_status (raised e) = raise e

module _ {D W : Type 0} (files : Files D) (fields : Fields D) (python : Interpreter) where
  unfoldable pub main :
      (Action → Call W Unit)
      → Dict String
      → Option String
      → Option String
      → Option String
      → Bool
      → Call W ℕ
  unfolding load_config run_from_config resolve_ready_file
  main perform os_environ config_file config_yaml ready_file once w =
      let (r, w') =
        (lift (load_config files python fields os_environ config_file config_yaml none)
            >>= λ (config, chosen).
                lift (resolve_ready_file files.expanduser os_environ ready_file none)
                >>= run_from_config perform config once)
          w in
      exit_status r w'
