-- ===== src/Runtime/Serving.antt =====
-- src/naia_relay/runtime/relay.py: the loops that serve a runtime over a transport, and the handlers
-- that dispatch a message to it. The arrivals are what a transport receives until it raises; each
-- comes with what the other tasks did to the runtime since the loop looked at it.
pub mod Ends
use naia_relay.Prelude.{
  ℕ, String, Bool, true, false, Option, none, some, List, [], ◌∷◌, if◌then◌else◌, eqb,
}
use naia_relay.Json.{Value, Object, object, str, dict, null, num}
use naia_relay.Json.{negsuc}
use naia_relay.Errors.{Exn, attribute_error}
use naia_relay.Call.{Call, Result, ok, raised, pure, raise, modify, catch, finally, ◌>>=◌, ◌>>◌}
use naia_relay.Runtime.Base.{BaseRuntime}
use naia_relay.Runtime.Serve.{Holds}
use naia_relay.Runtime.Host.{
  HostRuntime, host_holds, attach_executor_transport, detach_executor_transport, drop_transport,
}

pub record Arrival (S : Type 0) : Type 0 where
  pub meanwhile : S → S
  pub message : Object

module _ {S : Type 0} (holds : Holds S) where
  -- BaseRelayRuntime.stop. `drain` is what the other tasks do while it waits for the requests in
  -- flight, until there are none or the deadline has come.
  unfoldable pub stop : (S → S) → S → S
  stop drain s =
      holds.update (λ b. record b { started = false })
        (if eqb (holds.base s).stats.active_requests 0 then s else drain s)

  module _ (handle : Object → Call S (Option Object)) (send : Object → Call S Unit) where
    abbrev pub respond : Option Object → Call S Unit
    respond none = pure tt
    respond (some response) = send response

    abbrev pub take_turn : Arrival S → Call S Unit
    take_turn a = modify a.meanwhile >> handle a.message >>= respond

    -- while runtime.started: receive, handle, send.
    unfoldable pub serve_loop : List (Arrival S) → Call S Unit
    serve_loop [] = pure tt
    serve_loop (a ∷ rest) = λ s.
        let go_on = serve_loop rest in
        if (holds.base s).started then (take_turn a >> go_on) s else (ok tt, s)

    unfoldable pub serve_mcp_stdio : (S → S) → List (Arrival S) → Call S Unit
    unfolding serve_loop stop
    serve_mcp_stdio drain arrivals = finally (serve_loop arrivals) (stop drain)

  abbrev pub http_answer : Option Object → ℕ × Option Object
  http_answer none = (202, none)
  http_answer (some response) = (200, some response)

  -- _handle_mcp_http_payload: the status and the body.
  unfoldable pub handle_mcp_http_payload :
      (Object → Call S (Option Object)) → Value → Call S (ℕ × Option Object)
  unfolding object
  handle_mcp_http_payload handle (dict payload) =
      handle payload >>= λ response. pure (http_answer response)
  handle_mcp_http_payload handle payload = pure (
    400,
    some (
        object (
          ("jsonrpc", str "2.0")
          ∷ ("id", null)
          ∷ (
            "error",
            dict (
                object (
                  ("code", num (negsuc 32599))
                  ∷ ("message", str "HTTP MCP payload must be a JSON object")
                  ∷ [])),
          )
          ∷ [])),
  )

-- _handle_tep_message_with_runtime for a runtime that has no handle_executor_stdio_message.
unfoldable pub handle_tep_with_runtime :
    {S : Type 0} → Call S Object → Call S Object → Call S Object
handle_tep_with_runtime handler fallback =
    catch handler λ e. elim e [ attribute_error why ↦ fallback | x ↦ raise x ]

-- HostRelayRuntime.stop
unfoldable pub stop_host :
    {P : Type 0} → (HostRuntime P → HostRuntime P) → HostRuntime P → HostRuntime P
unfolding drop_transport stop
stop_host drain s = stop host_holds drain (drop_transport s)

module _ {P : Type 0} (handle : Object → Call (HostRuntime P) (Option Object))
    (send : Object → Call (HostRuntime P) Unit) where
  -- serve_tep_stdio for a host: its adapter is the one that is attached.
  abbrev pub tep_session : ℕ → List (Arrival (HostRuntime P)) → Call (HostRuntime P) Unit
  tep_session adapter arrivals =
      finally (serve_loop host_holds handle send arrivals)
        (detach_executor_transport (some adapter))

  -- The client handler of the executor's TCP listener.
  unfoldable pub serve_tep_client : ℕ → List (Arrival (HostRuntime P)) → Call (HostRuntime P) Unit
  unfolding attach_executor_transport detach_executor_transport serve_loop
  serve_tep_client adapter arrivals =
      modify (attach_executor_transport adapter) >> tep_session adapter arrivals

  unfoldable pub serve_tep_stdio :
      ℕ
      → (HostRuntime P → HostRuntime P)
      → List (Arrival (HostRuntime P))
      → Call (HostRuntime P) Unit
  unfolding attach_executor_transport detach_executor_transport serve_loop stop_host
  serve_tep_stdio adapter drain arrivals =
      modify (attach_executor_transport adapter)
      >> finally (tep_session adapter arrivals) (stop_host drain)
