-- ===== src/Runtime/Bind.antt =====
-- src/naia_relay/runtime/relay.py: ClientRelayRuntime.bind_via_requester, the retry loop that binds
-- a client to its host and loads the host's snapshot.
use Prim.Native.String.{◌++◌ as ◌<>◌}
use naia_relay.Prelude.{ℕ, zero, suc, ◌+◌, String, Option, none, some, [], ◌∷◌, if◌then◌else◌, leb}
use naia_relay.Json.{Value, Object, object, str, dict, is_text, empty}
use naia_relay.Errors.{Exn, ProtocolError, protocol_error, Interpreter}
use naia_relay.Call.{Call, Result, ok, raised, pure, raise, lift, modify, ◌>>=◌, ◌>>◌}
use naia_relay.Registry.Store.{mark_stale}
use naia_relay.Rlp.Models.{Models}
use naia_relay.Rlp.Dispatch.{Ids}
use naia_relay.Runtime.Base.{with_timeout}
use naia_relay.Runtime.Client.{
  Requester, Link, link_holds, count, mark_link_stale, on_peer, at, handle_rlp_message,
}

unfoldable pub bind_message : String → String → Object
unfolding object
bind_message host_session relay = object (
    ("protocol", str "rlp")
    ∷ ("version", str "1.0")
    ∷ ("message_type", str "bind_session")
    ∷ ("message_id", str "msg_bind")
    ∷ ("relay_session_id", str host_session)
    ∷ ("source_relay_id", str relay)
    ∷ (
      "payload",
      dict (
          object (("relay_session_id", str host_session) ∷ ("client_instance_id", str relay) ∷ [])),
    )
    ∷ [])

unfoldable pub snapshot_message : String → String → Value → Object
unfolding object
snapshot_message host_session host_relay details = object (
    ("protocol", str "rlp")
    ∷ ("version", str "1.0")
    ∷ ("message_type", str "tool_snapshot")
    ∷ ("message_id", str "msg_snapshot")
    ∷ ("relay_session_id", str host_session)
    ∷ ("source_relay_id", str host_relay)
    ∷ ("payload", details)
    ∷ [])

abbrev pub bind_failed : ProtocolError
bind_failed = record {
  message = "Failed to bind client relay to host relay";
  code = "relay_link_bind_failed";
  error_data = dict empty;
}

-- What the loop keeps as `last_error` of an exception of the requester.
unfoldable pub as_protocol_error : Interpreter → Exn → ProtocolError
unfolding object
as_protocol_error python (protocol_error p) = p
as_protocol_error python e = record {
  message = "Relay-link bind failed: " <> python.str_exc e;
  code = "transport_failure";
  error_data = dict (
      object
        (("exception_type", str (python.type_name e)) ∷ ("detail", str (python.str_exc e)) ∷ []));
}

-- `last_error or ProtocolError(...)`
abbrev pub last_or : Option ProtocolError → Exn
last_or none = protocol_error bind_failed
last_or (some p) = protocol_error p

-- try: m; the result, or what it raised, as a value
abbrev pub tried : {S A : Type 0} → Call S A → Call S (Result A)
tried m s = let (r, s') = m s in (ok r, s')

-- What the environment does in a bind: per attempt, whether the deadline comes before the response
-- and what the peer has done by then; the clock and the deadline of the local snapshot message.
pub record Surroundings (P : Type 0) : Type 0 where
  pub expiry : ℕ → Option (P → P)
  pub now : ℕ
  pub local_expiry : Option (Link P → Link P)

module _ {P : Type 0} (python : Interpreter) (models : Models) (ids : Ids) (around : Surroundings P)
    (requester : Requester P) (host_session host_relay : String) where
  abbrev expired : ℕ → Option (Link P → Link P)
  expired attempt = elim (around.expiry attempt) [
    | none ↦ none
    | some f ↦ some (λ s. record s { peer = f s.peer })
  ]

  -- One request to the host, within the connection timeout.
  abbrev pub ask_host : ℕ → Call (Link P) Object
  ask_host attempt s =
      with_timeout link_holds.update (expired attempt) "Relay-link bind"
        s.base.limits.connection_timeout_seconds
        (on_peer (requester (bind_message host_session s.base.relay_id))) s

  -- response["payload"]["status"]
  abbrev pub status_of : Object → Result Value
  status_of response = elim (at python "payload" (dict response)) [
    | raised e ↦ raised e
    | ok payload ↦ at python "status" payload
  ]

  abbrev pub details_of : Object → Result Value
  details_of response = elim (at python "payload" (dict response)) [
    | raised e ↦ raised e
    | ok payload ↦ at python "details" payload
  ]

  abbrev pub load_snapshot : Object → Call (Link P) Object
  load_snapshot response = lift (details_of response) >>= λ details.
      handle_rlp_message python models ids around.now around.local_expiry
        (snapshot_message host_session host_relay details)
      >>= λ _. pure response

  -- The rest of one round: `retry` is the next one.
  abbrev pub after_request :
      ℕ → ℕ → (Option ProtocolError → Call (Link P) Object) → Result Object → Call (Link P) Object
  after_request limit attempt retry (raised e) =
      modify mark_link_stale
      >> (if leb limit attempt
          then raise (protocol_error (as_protocol_error python e))
          else retry (some (as_protocol_error python e)))
  after_request limit attempt retry (ok response) = lift (status_of response) >>= λ status.
      if is_text "ok" (some status) then load_snapshot response else retry (some bind_failed)

  -- for attempt in range(reconnect_attempts + 1), from the attempt on; `left` counts the rounds.
  unfoldable pub attempts : ℕ → ℕ → ℕ → Option ProtocolError → Call (Link P) Object
  unfolding as_protocol_error handle_rlp_message mark_link_stale bind_message snapshot_message
  attempts limit zero attempt last_error = raise (last_or last_error)
  attempts limit (suc left) attempt last_error =
      modify (count (λ stats. record stats { reconnect_attempts = stats.reconnect_attempts + 1 }))
      >> tried (ask_host attempt)
      >>= after_request limit attempt (λ last. attempts limit left (suc attempt) last)

  unfoldable pub bind_via_requester : Call (Link P) Object
  unfolding mark_stale attempts
  bind_via_requester s =
      attempts s.base.limits.reconnect_attempts (suc s.base.limits.reconnect_attempts) 0 none
        (record s {
          upstream_requester = some requester;
          rlp_handler = record s.rlp_handler {
            host_relay_id = host_relay;
            relay_session_id = host_session;
          };
          registry = mark_stale s.registry;
        })
