-- ===== src/Runtime/Serve.antt =====
-- src/naia_relay/runtime/relay.py: handle_mcp_message, which DirectRelayRuntime and
-- ClientRelayRuntime share word for word, and the message handlers that count failures.
use naia_relay.Prelude.{ℕ, Option, if◌then◌else◌}
use naia_relay.Json.{Object, get, is_text}
use naia_relay.Call.{Call, raise, modify, catch, finally, zoom, ◌>>◌}
use naia_relay.Runtime.Base.{
  BaseRuntime, ensure_started, guard_request, finish_request, record_heartbeat,
  record_validation_failure, with_timeout,
}

-- The runtime inside a larger state.
pub record Holds (S : Type 0) : Type 0 where
  pub base : S → BaseRuntime
  pub update : (BaseRuntime → BaseRuntime) → S → S

module _ {S B : Type 0} (holds : Holds S) where
  abbrev pub on_base : Call BaseRuntime B → Call S B
  on_base = zoom holds.base (λ b. holds.update (λ _. b))

module _ {S A : Type 0} (holds : Holds S) where
  -- except Exception as exc: self.record_validation_failure(exc); raise
  abbrev pub counting_failures : Call S A → Call S A
  counting_failures m = catch m (λ e. modify (holds.update record_validation_failure) >> raise e)

  -- `expiry` says whether the deadline comes first, and what the handler has done by then.
  unfoldable pub with_request_timeout : Option (S → S) → Call S A → Call S A
  with_request_timeout expiry m s =
      with_timeout holds.update expiry "Request" (holds.base s).limits.request_timeout_seconds m s

  unfoldable pub handle_mcp_message : Option (S → S) → Call S A → Call S A
  unfolding ensure_started guard_request finish_request record_validation_failure
      with_request_timeout
  handle_mcp_message expiry handler =
      on_base holds ensure_started
      >> on_base holds guard_request
      >> finally (counting_failures (with_request_timeout expiry handler))
          (holds.update finish_request)

  -- handle_tep_message and handle_rlp_message: a heartbeat is recorded first.
  unfoldable pub handle_message : ℕ → Option (S → S) → (Object → Call S A) → Object → Call S A
  unfolding ensure_started record_heartbeat record_validation_failure with_request_timeout
  handle_message now expiry handler message =
      on_base holds ensure_started
      >> modify (
          if is_text "heartbeat" (get "message_type" message)
          then holds.update (record_heartbeat now)
          else λ s. s)
      >> counting_failures (with_request_timeout expiry (handler message))
