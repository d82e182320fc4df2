-- ===== src/Config/Validated.antt =====
-- What the validators of a configuration guarantee.
use naia_relay.Prelude.{
  ◌≡◌, refl, ap, subst, inl, inr, ℕ, String, Option, none, some, Bool-cases, Option-cases, ◌==◌,
}
use naia_relay.Call.{Result, ok, raised, Result-cases, ok_inj}
use naia_relay.Config.{
  McpTransportType, stdio, http, ExecutorTransportType, stdio_executor, tcp, McpConfig, Address,
  TcpEndpointConfig, RelayLinkConfig, RawConfig, or_localhost, validate_mcp, validate_for_role,
  wrong_for_role, validate_address, tcp_ports, link_ports, validate_endpoint, validate_relay_link,
}
use naia_relay.Config.Parse.{Fields, assemble, validate_raw, validate_section}

or_localhost-again : (h : Option String) → or_localhost (some (or_localhost h)) ≡ or_localhost h
or_localhost-again none = refl
or_localhost-again (some s) = elim (Bool-cases (s == "")) [
  | inl e ↦ rw e refl
  | inr e ↦ rw (e, e) refl
]

-- What has passed its validator passes it again, unchanged.
abbrev pub Fixed : {A : Type 0} → (A → Result A) → A → Type 0
Fixed validate a = validate a ≡ ok a

Fixed-result :
    {A : Type 0} (validate : A → Result A) (a a' : A)
    → Fixed validate a
    → ok a ≡ ok a'
    → Fixed validate a'
Fixed-result validate a a' h e = subst (Fixed validate) (ok_inj e) h

mcp-Fixed :
    (t : McpTransportType) (p : Option ℕ) (m m' : McpConfig)
    → m.transport ≡ t
    → m.port ≡ p
    → validate_mcp m ≡ ok m'
    → Fixed validate_mcp m'
unfolding validate_mcp
mcp-Fixed stdio p m m' t e = rw t (λ h. Fixed-result validate_mcp _ m' refl h)
mcp-Fixed http none m m' t e = rw (t, e) (λ h. absurd (cc h))
mcp-Fixed http (some p) m m' t e =
    rw (t, e)
      (λ h.
        Fixed-result validate_mcp _ m'
          (ap (λ host. ok (record { transport = http; host = some host; port = some p }))
            (or_localhost-again m.host))
          h)

address-Fixed :
    (why : String) (host bind_host : Option String) (port bind_port : Option ℕ) (a' : Address)
    → validate_address why
        (record { host = host; port = port; bind_host = bind_host; bind_port = bind_port })
      ≡ ok a'
    → Fixed (validate_address why) a'
unfolding validate_address
address-Fixed why h b none none a' e = absurd (cc e)
address-Fixed why none none (some p) q a' e = Fixed-result (validate_address why) _ a' refl e
address-Fixed why none (some b) (some p) q a' e = Fixed-result (validate_address why) _ a' refl e
address-Fixed why (some h) b (some p) q a' e = Fixed-result (validate_address why) _ a' refl e
address-Fixed why none none none (some q) a' e = Fixed-result (validate_address why) _ a' refl e
address-Fixed why none (some b) none (some q) a' e = Fixed-result (validate_address why) _ a' refl e
address-Fixed why (some h) b none (some q) a' e = Fixed-result (validate_address why) _ a' refl e

endpoint-Fixed :
    (t : ExecutorTransportType) (e e' : TcpEndpointConfig)
    → e.transport ≡ t
    → validate_endpoint e ≡ ok e'
    → Fixed validate_endpoint e'
unfolding validate_endpoint
endpoint-Fixed stdio_executor e e' t = rw t (λ h. Fixed-result validate_endpoint _ e' refl h)
endpoint-Fixed tcp e e' t = elim (Result-cases (validate_address tcp_ports e.address)) [
  | inl (a, v) ↦
      rw (t, v)
        (λ h.
          Fixed-result validate_endpoint (record { transport = tcp; address = a }) e'
            (rw
              (address-Fixed tcp_ports e.address.host e.address.bind_host e.address.port
                e.address.bind_port a v)
              refl)
            h)
  | inr (x, v) ↦ rw (t, v) (λ h. absurd (cc h))
]

relay_link-Fixed :
    (l l' : RelayLinkConfig) → validate_relay_link l ≡ ok l' → Fixed validate_relay_link l'
unfolding validate_relay_link
relay_link-Fixed l l' = elim (Result-cases (validate_address link_ports l.address)) [
  | inl (a, v) ↦ rw v (λ h.
      Fixed-result validate_relay_link (record { address = a }) l'
        (rw
          (address-Fixed link_ports l.address.host l.address.bind_host l.address.port
            l.address.bind_port a v)
          refl)
        h)
  | inr (x, v) ↦ rw v (λ h. absurd (cc h))
]

abbrev pub FixedSection : {A : Type 0} → (A → Result A) → Option A → Type 0
FixedSection validate none = Unit
FixedSection validate (some a) = Fixed validate a

section-Fixed :
    {A : Type 0} (validate : A → Result A)
    → ((a a' : A) → validate a ≡ ok a' → Fixed validate a')
    → (o o' : Option A) → validate_section validate o ≡ ok o'
    → FixedSection validate o'
section-Fixed validate again none o' = λ h. subst (FixedSection validate) (ok_inj h) tt
section-Fixed validate again (some a) o' = elim (Result-cases (validate a)) [
  | inl (a', v) ↦ rw v (λ h. subst (FixedSection validate) (ok_inj h) (again a a' v))
  | inr (x, v) ↦ rw v (λ h. absurd (cc h))
]

pub record FixedSections (r : RawConfig) : Type 0 where
  pub mcp : FixedSection validate_mcp r.mcp
  pub executor : FixedSection validate_endpoint r.executor
  pub relay_link : FixedSection validate_relay_link r.relay_link

module _ {D : Type 0} (fields : Fields D) where
  assemble-Fixed :
      (r r' : RawConfig) (m : Result (Option McpConfig)) (e : Result (Option TcpEndpointConfig))
      (l : Result (Option RelayLinkConfig))
      → ((o : Option McpConfig) → m ≡ ok o → FixedSection validate_mcp o)
      → ((o : Option TcpEndpointConfig) → e ≡ ok o → FixedSection validate_endpoint o)
      → ((o : Option RelayLinkConfig) → l ≡ ok o → FixedSection validate_relay_link o)
      → assemble fields r m e l ≡ ok r'
      → FixedSections r'
  assemble-Fixed r r' (ok m) (ok e) (ok l) fm fe fl h =
      subst FixedSections (ok_inj h)
        (record { mcp = fm m refl; executor = fe e refl; relay_link = fl l refl })
  assemble-Fixed r r' (raised x) e l fm fe fl h = absurd (cc h)
  assemble-Fixed r r' (ok m) (raised x) l fm fe fl h = absurd (cc h)
  assemble-Fixed r r' (ok m) (ok e) (raised x) fm fe fl h = absurd (cc h)

  abbrev sections : RawConfig → Result RawConfig
  sections r =
      assemble fields r (validate_section validate_mcp r.mcp)
        (validate_section validate_endpoint r.executor)
        (validate_section validate_relay_link r.relay_link)

  sections-Fixed : (r r' : RawConfig) → sections r ≡ ok r' → FixedSections r'
  sections-Fixed r r' =
      assemble-Fixed r r' _ _ _
        (section-Fixed validate_mcp (λ m m'. mcp-Fixed m.transport m.port m m' refl refl) r.mcp)
        (section-Fixed validate_endpoint (λ e e'. endpoint-Fixed e.transport e e' refl) r.executor)
        (section-Fixed validate_relay_link relay_link-Fixed r.relay_link)

  pub validate_raw-Fixed :
      (r r' : RawConfig)
      → validate_raw fields r ≡ ok r'
      → FixedSections r' × (wrong_for_role r'.role r'.mcp r'.executor r'.relay_link ≡ none)
  unfolding validate_raw validate_for_role
  validate_raw-Fixed r r' = elim (Result-cases (sections r)) [
    | inl (a, v) ↦ elim (Option-cases (wrong_for_role a.role a.mcp a.executor a.relay_link)) [
      | inl right ↦
          rw (v, right, validate_for_role)
            (λ h.
              subst
                (λ c.
                  FixedSections c × (wrong_for_role c.role c.mcp c.executor c.relay_link ≡ none))
                (ok_inj h) (sections-Fixed r a v, right))
      | inr (why, wrong) ↦ rw (v, wrong, validate_for_role) (λ h. absurd (cc h))
    ]
    | inr (x, v) ↦ rw v (λ h. absurd (cc h))
  ]
