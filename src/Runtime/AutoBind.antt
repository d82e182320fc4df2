-- ===== src/Runtime/AutoBind.antt =====
-- src/naia_relay/runtime/relay.py: ClientRelayRuntime._tcp_round_trip and
-- _auto_bind_tcp_relay_link, by which a client finds its host and binds to it when it starts. The
-- TCP adapter's operations are parameters.
use naia_relay.Prelude.{ℕ, String, true, Option, none, some, [], ◌∷◌, ◌||◌, ◌==◌, if◌then◌else◌}
use naia_relay.Json.{Object, object, str, dict, bool, get, empty}
use naia_relay.Errors.{Interpreter, configuration_error}
use naia_relay.Call.{Call, raise, finally, ◌>>=◌, ◌>>◌}
use naia_relay.Rlp.Models.{Models}
use naia_relay.Rlp.Dispatch.{Ids}
use naia_relay.Runtime.Base.{with_timeout}
use naia_relay.Runtime.Client.{Requester, Link, link_holds, on_peer, failure}
use naia_relay.Runtime.Bind.{Surroundings, bind_via_requester}
use naia_relay.Runtime.Host.Stdio.{text_of}
use naia_relay.Config.{Address, or_localhost}

-- TcpTransportAdapter(host, port): start, send, receive and stop.
pub record Adapter (P : Type 0) : Type 0 where
  pub start : String → ℕ → Call P Unit
  pub send : Object → Call P Unit
  pub receive : Call P Object
  pub stop : P → P

-- _tcp_round_trip, for a client whose relay link has this address.
unfoldable pub tcp_round_trip : {P : Type 0} → Adapter P → Address → Requester P
tcp_round_trip adapter link message = elim link.port [
  | none ↦ raise (configuration_error "client relay tcp transport requires relay_link.port")
  | some port ↦
      adapter.start (or_localhost link.host) port
      >> finally (adapter.send message >> adapter.receive) adapter.stop
]

unfoldable pub hello_message : String → String → Object
unfolding object
hello_message mid relay_id = object (
    ("protocol", str "rlp")
    ∷ ("version", str "1.0")
    ∷ ("message_type", str "hello")
    ∷ ("message_id", str mid)
    ∷ ("source_relay_id", str relay_id)
    ∷ (
      "payload",
      dict (
          object (
            ("relay_id", str relay_id)
            ∷ ("role", str "client")
            ∷ (
              "capabilities",
              dict (object (("tool_sync", bool true) ∷ ("tool_execution", bool true) ∷ [])),
            )
            ∷ ("metadata", dict empty)
            ∷ [])),
    )
    ∷ [])

module _ {P : Type 0} (python : Interpreter) (models : Models) (ids : Ids) (around : Surroundings P)
    (requester : Requester P) where
  -- `expiry` is the deadline of the hello.
  abbrev pub say_hello : String → Option (Link P → Link P) → Call (Link P) Object
  say_hello mid expiry s =
      with_timeout link_holds.update expiry "Relay-link hello"
        s.base.limits.connection_timeout_seconds
        (on_peer (requester (hello_message mid s.base.relay_id))) s

  -- _auto_bind_tcp_relay_link
  unfoldable pub auto_bind_tcp_relay_link : String → Option (Link P → Link P) → Call (Link P) Object
  unfolding hello_message get bind_via_requester
  auto_bind_tcp_relay_link mid expiry = say_hello mid expiry >>= λ hello.
      let host_session = text_of python (get "relay_session_id" hello) in
      let host_relay = text_of python (get "source_relay_id" hello) in
      if (host_session == "") || (host_relay == "")
      then raise (failure "Relay-link hello did not return host identity" "relay_link_hello_failed")
      else bind_via_requester python models ids around requester host_session host_relay
