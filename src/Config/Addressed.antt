-- ===== src/Config/Addressed.antt =====
-- The addresses that a parsed configuration has, section by section of its role. Which of them the
-- runtime uses is not said here: a client that has only a port to bind passes, and connects to none.
use naia_relay.Prelude.{
  ◌≡◌, ◌≢◌, refl, ap, ◌∙◌, subst, ◌⊎◌, inl, inr, ℕ, String, false, Option, none, some, Bool-cases,
  ◌==◌, eq_iff, arith,
}
use naia_relay.Errors.{
  Exn, Interpreter, configuration_error, value_error, key_error, attribute_error, runtime_error,
  validation_error, protocol_error, transport_error, other_error,
}
use naia_relay.Call.{ok_inj, ok, raised, IfOk, IfRaised, Result-cases}
use naia_relay.Pydantic.{or_raise}
use naia_relay.Config.{
  McpTransportType, stdio, http, ExecutorTransportType, stdio_executor, tcp, RoleType, direct, host,
  client, McpConfig, Address, TcpEndpointConfig, RelayLinkConfig, RawConfig, RelayAppConfig,
  direct_config, host_config, client_config, or_localhost, validate_mcp, both_stdio, wrong_for_role,
  RelayConfig, validate_address, validate_endpoint, validate_relay_link, tcp_ports, link_ports,
}
use naia_relay.Config.Parse.{
  Fields, as_configuration_error, to_typed_config, validate_raw, parse_config,
}
use naia_relay.Config.Validated.{Fixed, FixedSections, validate_raw-Fixed}

abbrev pub IsGiven : {A : Type 0} → Option A → Type 0
IsGiven none = ⊥
IsGiven (some a) = Unit

abbrev pub IsNamed : Option String → Type 0
IsNamed none = ⊥
IsNamed (some s) = s ≢ ""

-- An MCP endpoint over HTTP has a host that is not empty, and a port.
abbrev pub IsServedOver : McpTransportType → McpConfig → Type 0
IsServedOver stdio m = Unit
IsServedOver http m = IsNamed m.host × IsGiven m.port

-- A TCP endpoint has a host or a bind host, and a port or a bind port.
abbrev pub IsReachable : Address → Type 0
IsReachable a = (IsGiven a.host ⊎ IsGiven a.bind_host) × (IsGiven a.port ⊎ IsGiven a.bind_port)

abbrev pub IsReachedOver : ExecutorTransportType → Address → Type 0
IsReachedOver stdio_executor a = Unit
IsReachedOver tcp a = IsReachable a

-- Each section that the role needs is there: an MCP side over HTTP has a host and a port, a TCP side
-- has some host and some port, to connect to or to bind, and a direct runtime has not both its sides
-- on stdio.
abbrev pub IsAddressed : RelayAppConfig → Type 0
IsAddressed (direct_config c) =
    IsServedOver c.mcp.transport c.mcp
    × IsReachedOver c.executor.transport c.executor.address
    × (both_stdio c.mcp.transport c.executor.transport ≡ false)
IsAddressed (host_config c) =
    IsReachedOver c.executor.transport c.executor.address × IsReachable c.relay_link.address
IsAddressed (client_config c) =
    IsServedOver c.mcp.transport c.mcp × IsReachable c.relay_link.address

-- The configuration without its class.
abbrev pub untyped : RelayAppConfig → RawConfig
untyped (direct_config c) = record {
  role = direct;
  mcp = some c.mcp;
  executor = some c.executor;
  relay_link = none;
  relay = c.relay;
}
untyped (host_config c) = record {
  role = host;
  mcp = none;
  executor = some c.executor;
  relay_link = some c.relay_link;
  relay = c.relay;
}
untyped (client_config c) = record {
  role = client;
  mcp = some c.mcp;
  executor = none;
  relay_link = some c.relay_link;
  relay = c.relay;
}

or_localhost-named : (h : Option String) → or_localhost h ≢ ""
or_localhost-named none = λ h. absurd (cc h)
or_localhost-named (some s) = elim (Bool-cases (s == "")) [
  | inl e ↦ rw e (λ h. absurd (cc h))
  | inr e ↦ rw e (λ h. ground (arith, h, e, eq_iff s ""))
]

served :
    (t : McpTransportType) (p : Option ℕ) (m : McpConfig)
    → m.transport ≡ t
    → m.port ≡ p
    → Fixed validate_mcp m
    → IsServedOver m.transport m
unfolding validate_mcp
served stdio p m t e = rw t (λ h. tt)
served http none m t e = rw (t, e) (λ h. absurd (cc h))
served http (some p) m t e =
    rw (t, e) (λ h. (subst IsNamed (ap (λ m. m.host) (ok_inj h)) (or_localhost-named m.host), tt))

reachable :
    (why : String) (h b : Option String) (p q : Option ℕ)
    → let a : Address = record { host = h; port = p; bind_host = b; bind_port = q } in
      (Fixed (validate_address why) a) → IsReachable a
unfolding validate_address
reachable why h b none none e = absurd (cc e)
reachable why none none (some p) q e = absurd (cc e)
reachable why none none none (some q) e = absurd (cc e)
reachable why (some h) b (some p) q e = (inl tt, inl tt)
reachable why (some h) b none (some q) e = (inl tt, inr tt)
reachable why none (some b) (some p) q e = (inr tt, inl tt)
reachable why none (some b) none (some q) e = (inr tt, inr tt)

reached :
    (t : ExecutorTransportType) (e : TcpEndpointConfig)
    → e.transport ≡ t
    → Fixed validate_endpoint e
    → IsReachedOver e.transport e.address
unfolding validate_endpoint
reached stdio_executor e t = rw t (λ h. tt)
reached tcp e t = elim (Result-cases (validate_address tcp_ports e.address)) [
  | inl (a, v) ↦
      rw (t, v)
        (λ h.
          reachable tcp_ports e.address.host e.address.bind_host e.address.port e.address.bind_port
            (v ∙ ap (λ e. ok e.address) (ok_inj h)))
  | inr (x, v) ↦ rw (t, v) (λ h. absurd (cc h))
]

linked : (l : RelayLinkConfig) → Fixed validate_relay_link l → IsReachable l.address
unfolding validate_relay_link
linked l = elim (Result-cases (validate_address link_ports l.address)) [
  | inl (a, v) ↦ rw v (λ h.
      reachable link_ports l.address.host l.address.bind_host l.address.port l.address.bind_port
        (v ∙ ap (λ l. ok l.address) (ok_inj h)))
  | inr (x, v) ↦ rw v (λ h. absurd (cc h))
]

abbrev pub IsConfigurationError : Exn → Type 0
IsConfigurationError (configuration_error why) = Unit
IsConfigurationError _ = ⊥

-- What is caught becomes a ConfigurationError.
as_configuration_error-raised :
    (python : Interpreter) (x : Exn)
    → IfOk IsAddressed (as_configuration_error {A = RelayAppConfig} python (raised x))
      × IfRaised IsConfigurationError
          (as_configuration_error {A = RelayAppConfig} python (raised x))
as_configuration_error-raised python (configuration_error why) = (tt, tt)
as_configuration_error-raised python (value_error why) = (tt, tt)
as_configuration_error-raised python (key_error why) = (tt, tt)
as_configuration_error-raised python (attribute_error why) = (tt, tt)
as_configuration_error-raised python (runtime_error why) = (tt, tt)
as_configuration_error-raised python (validation_error why) = (tt, tt)
as_configuration_error-raised python (protocol_error why) = (tt, tt)
as_configuration_error-raised python (transport_error why) = (tt, tt)
as_configuration_error-raised python (other_error name why) = (tt, tt)

module _ {D : Type 0} (fields : Fields D) where
  typed_lem :
      (role : RoleType) (m : Option McpConfig) (e : Option TcpEndpointConfig)
      (l : Option RelayLinkConfig) (relay : RelayConfig)
      → let r : RawConfig = record {
        role = role;
        mcp = m;
        executor = e;
        relay_link = l;
        relay = relay;
      } in
        FixedSections r
        → wrong_for_role role m e l ≡ none
        → (c : RelayAppConfig) × (to_typed_config fields r ≡ ok c) × (untyped c ≡ r) × IsAddressed c
  unfolding to_typed_config
  typed_lem direct (some m) (some e) none relay f =
      elim (Bool-cases (both_stdio m.transport e.transport)) [
        | inl stuck ↦ rw stuck (λ h. absurd (cc h))
        | inr free ↦ λ h.
            rw (f.mcp, f.executor)
              (
                _,
                refl,
                refl,
                (
                  served m.transport m.port m refl refl f.mcp,
                  reached e.transport e refl f.executor,
                  free,
                ),
              )
      ]
  typed_lem direct (some m) (some e) (some l) relay f = λ h. absurd (cc h)
  typed_lem direct (some m) none l relay f = λ h. absurd (cc h)
  typed_lem direct none e l relay f = λ h. absurd (cc h)
  typed_lem host none (some e) (some l) relay f = λ h.
      rw (f.executor, f.relay_link)
        (_, refl, refl, (reached e.transport e refl f.executor, linked l f.relay_link))
  typed_lem host (some m) (some e) (some l) relay f = λ h. absurd (cc h)
  typed_lem host m none l relay f = λ h. absurd (cc h)
  typed_lem host m (some e) none relay f = λ h. absurd (cc h)
  typed_lem client (some m) none (some l) relay f = λ h.
      rw (f.mcp, f.relay_link)
        (_, refl, refl, (served m.transport m.port m refl refl f.mcp, linked l f.relay_link))
  typed_lem client (some m) (some e) (some l) relay f = λ h. absurd (cc h)
  typed_lem client none e l relay f = λ h. absurd (cc h)
  typed_lem client (some m) e none relay f = λ h. absurd (cc h)

  -- A configuration that has passed its validators is converted to the class of its role: nothing in
  -- it changes. The result has the sections of its role: an MCP side over HTTP has a host and a port, a
  -- TCP side has some host and some port, to connect to or to bind, and not both sides of a direct
  -- runtime are on stdio.
  pub validated_converts :
      (given r : RawConfig)
      → validate_raw fields given ≡ ok r
      → (c : RelayAppConfig) × (to_typed_config fields r ≡ ok c) × (untyped c ≡ r) × IsAddressed c
  validated_converts given r h =
      let (fixed, right) = validate_raw-Fixed fields given r h in
      typed_lem r.role r.mcp r.executor r.relay_link r.relay fixed right

  -- Whatever is parsed: a configuration that parse_config returns is addressed, and what it raises
  -- is a ConfigurationError.
  pub parse_config-IsAddressed :
      (python : Interpreter) (mapping : D)
      → IfOk IsAddressed (parse_config fields python mapping)
        × IfRaised IsConfigurationError (parse_config fields python mapping)
  unfolding parse_config
  parse_config-IsAddressed python mapping = elim (Result-cases (or_raise (fields.raw mapping))) [
    | inr (x, e) ↦ rw e (as_configuration_error-raised python x)
    | inl (given, e) ↦ elim (Result-cases (validate_raw fields given)) [
      | inr (x, v) ↦ rw (e, v) (as_configuration_error-raised python x)
      | inl (r, v) ↦
          (let (c, t, u, addressed) = validated_converts given r v in rw (e, v, t) (addressed, tt))
    ]
  ]
