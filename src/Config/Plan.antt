-- ===== src/Config/Plan.antt =====
-- What a configuration with its addresses starts, as a list of actions.
use naia_relay.Prelude.{
  inl, inr, ◌≡◌, refl, sym, ap, ◌∙◌, ℕ, String, Bool, Option, none, some, List, [], ◌∷◌, ◌++◌,
  if◌then◌else◌,
}
use naia_relay.Call.{Call, pure, continue, Result-cases, ◌>>◌}
use naia_relay.Config.{
  RelayAppConfig, direct_config, host_config, client_config, McpConfig, TcpEndpointConfig,
  McpTransportType, stdio, http, ExecutorTransportType, stdio_executor, tcp, or_localhost,
}
use naia_relay.Config.Addressed.{IsAddressed, IsServedOver}
use naia_relay.Config.Startup.{
  Action, start_runtime, stop_runtime, auto_bind, listen_tep, listen_mcp, listen_rlp,
  write_readiness_file, mcp_of, executor_of, tep_host, listen_if, open_tep, open_mcp,
  open_relay_link, announce, serve, run_from_config,
}

abbrev at_port : (ℕ → Action) → Option ℕ → List Action
at_port listen none = []
at_port listen (some port) = listen port ∷ []

abbrev for_tep : Option TcpEndpointConfig → List Action
for_tep none = []
for_tep (some e) = elim e.transport [
  | stdio_executor ↦ []
  | tcp ↦ at_port (listen_tep (tep_host e.address)) e.address.bind_port
]

abbrev for_mcp : Option McpConfig → List Action
for_mcp none = []
for_mcp (some m) = elim m.transport [
  | stdio ↦ []
  | http ↦ at_port (listen_mcp (or_localhost m.host)) m.port
]

abbrev for_relay_link : RelayAppConfig → List Action
for_relay_link (direct_config c) = []
for_relay_link (host_config c) = at_port listen_rlp c.relay_link.address.bind_port
for_relay_link (client_config c) = auto_bind ∷ []

abbrev for_readiness : Option String → List Action
for_readiness none = []
for_readiness (some path) = write_readiness_file path ∷ []

-- The runtime starts; then the executor's listener, the one for MCP and the relay link are opened;
-- then the readiness is announced.
abbrev with_tep : RelayAppConfig → List Action
with_tep c = (start_runtime ∷ []) ++ for_tep (executor_of c)

abbrev with_mcp : RelayAppConfig → List Action
with_mcp c = with_tep c ++ for_mcp (mcp_of c)

abbrev with_link : RelayAppConfig → List Action
with_link c = with_mcp c ++ for_relay_link c

abbrev pub opening : RelayAppConfig → Option String → List Action
opening c ready_file = with_link c ++ for_readiness ready_file

module _ {W : Type 0} (perform : Action → Call W Unit) where
  -- One action after the other, until one raises.
  abbrev pub perform_all : List Action → Call W Unit
  perform_all [] = pure tt
  perform_all (a ∷ as') = perform a >> perform_all as'

  -- The call does these actions.
  abbrev Does : Call W Unit → List Action → Type 0
  Does m as' = (w : W) → m w ≡ perform_all as' w

  Does-one : (a : Action) → Does (perform a) (a ∷ [])
  Does-one a w =
      let v = (perform a w).1 in
      elim (Result-cases (perform a w).0) [
        | inl (u, e) ↦ ap (λ r. (r, v)) e ∙ sym (ap (λ r. continue r (λ _. pure tt) v) e)
        | inr (x, e) ↦ ap (λ r. (r, v)) e ∙ sym (ap (λ r. continue r (λ _. pure tt) v) e)
      ]

  perform_all-append :
      (k : Call W Unit) (as' bs : List Action)
      → Does k bs
      → (w : W) → (perform_all as' >> k) w ≡ perform_all (as' ++ bs) w
  perform_all-append k [] bs h w = h w
  perform_all-append k (a ∷ as') bs h w = elim (Result-cases (perform a w).0) [
    | inl (u, e) ↦ rw e (perform_all-append k as' bs h (perform a w).1)
    | inr (x, e) ↦ rw e refl
  ]

  Does-append :
      (m k : Call W Unit) (as' bs : List Action)
      → Does m as'
      → Does k bs
      → Does (m >> k) (as' ++ bs)
  Does-append m k as' bs hm hk w =
      ap (λ (r, v). continue r (λ _. k) v) (hm w) ∙ perform_all-append k as' bs hk w

  listen_if-Does :
      (listen : ℕ → Action) (p : Option ℕ) → Does (listen_if perform listen p) (at_port listen p)
  listen_if-Does listen none = λ w. refl
  listen_if-Does listen (some port) = Does-one (listen port)

  tep-Does :
      (t : ExecutorTransportType) (e : TcpEndpointConfig)
      → e.transport ≡ t
      → Does (open_tep perform (some e)) (for_tep (some e))
  tep-Does stdio_executor e h = rw h (λ w. refl)
  tep-Does tcp e h = rw h (listen_if-Does (listen_tep (tep_host e.address)) e.address.bind_port)

  open_tep-Does : (e : Option TcpEndpointConfig) → Does (open_tep perform e) (for_tep e)
  open_tep-Does none = λ w. refl
  open_tep-Does (some e) = tep-Does e.transport e refl

  mcp-Does :
      (t : McpTransportType) (p : Option ℕ) (m : McpConfig)
      → m.transport ≡ t
      → m.port ≡ p
      → IsServedOver m.transport m
      → Does (open_mcp perform (some m)) (for_mcp (some m))
  mcp-Does stdio p m t e = rw t (λ h w. refl)
  mcp-Does http none m t e = rw (t, e) (λ h. absurd h.1)
  mcp-Does http (some p) m t e = rw (t, e) (λ h. Does-one (listen_mcp (or_localhost m.host) p))

  open_mcp-Does :
      (c : RelayAppConfig) → IsAddressed c → Does (open_mcp perform (mcp_of c)) (for_mcp (mcp_of c))
  open_mcp-Does (direct_config c) h = mcp-Does c.mcp.transport c.mcp.port c.mcp refl refl h.0
  open_mcp-Does (host_config c) h = λ w. refl
  open_mcp-Does (client_config c) h = mcp-Does c.mcp.transport c.mcp.port c.mcp refl refl h.0

  open_relay_link-Does : (c : RelayAppConfig) → Does (open_relay_link perform c) (for_relay_link c)
  open_relay_link-Does (direct_config c) = λ w. refl
  open_relay_link-Does (host_config c) = listen_if-Does listen_rlp c.relay_link.address.bind_port
  open_relay_link-Does (client_config c) = Does-one auto_bind

  announce-Does :
      (ready_file : Option String) → Does (announce perform ready_file) (for_readiness ready_file)
  announce-Does none = λ w. refl
  announce-Does (some path) = Does-one (write_readiness_file path)

  -- For a configuration that has the addresses of its role, run_from_config starts the runtime, opens the listeners that the
  -- configuration has a port for, binds a client, and only then announces its readiness, one after the
  -- other until one raises; then it stops, if it is to run once, and else serves.
  pub run_from_config-opening :
      (c : RelayAppConfig) (once : Bool) (ready_file : Option String) (w : W)
      → IsAddressed c
      → run_from_config perform c once ready_file w
        ≡ (perform_all (opening c ready_file)
              >> (if once then perform stop_runtime else serve perform c))
            w
  unfolding run_from_config
  run_from_config-opening c once ready_file w h =
      ap (λ (r, v). continue r (λ _. if once then perform stop_runtime else serve perform c) v)
        (Does-append _ _ (with_link c) (for_readiness ready_file)
          (Does-append _ _ (with_mcp c) (for_relay_link c)
            (Does-append _ _ (with_tep c) (for_mcp (mcp_of c))
              (Does-append _ _ (start_runtime ∷ []) (for_tep (executor_of c))
                (Does-one start_runtime) (open_tep-Does (executor_of c)))
              (open_mcp-Does c h))
            (open_relay_link-Does c))
          (announce-Does ready_file) w)
