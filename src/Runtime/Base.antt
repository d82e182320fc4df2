-- ===== src/Runtime/Base.antt =====
-- src/naia_relay/runtime/relay.py: BaseRelayRuntime. Logging is left out. Times are in nanoseconds
-- of the monotonic clock, and limits in seconds are naturals, as the configuration checks them.
use Prim.Native.String.{◌++◌ as ◌<>◌}
use Prim.Native.Nat.{◌*◌}
use naia_relay.Prelude.{
  ℕ, ◌+◌, ◌-◌, String, Bool, true, false, Option, none, some, [], ◌∷◌, if◌then◌else◌, leb, ltb, eqb,
  ◌==◌,
}
use naia_relay.Json.{object, str, nat, dict}
use naia_relay.Errors.{Exn, runtime_error, protocol_error, other_error}
use naia_relay.Call.{Call, ok, raised, raise, modify, catch, ◌>>◌}

pub record RuntimeStats : Type 0 where
  pub active_requests : ℕ
  pub active_executions : ℕ
  pub attached_clients : ℕ
  pub queue_depth : ℕ
  pub completed_requests : ℕ
  pub timed_out_requests : ℕ
  pub reconnect_attempts : ℕ
  pub stale_rejections : ℕ
  pub validation_failures : ℕ
  pub disconnects : ℕ
  pub slow_consumer_rejections : ℕ

abbrev pub no_stats : RuntimeStats
no_stats = record {
  active_requests = 0;
  active_executions = 0;
  attached_clients = 0;
  queue_depth = 0;
  completed_requests = 0;
  timed_out_requests = 0;
  reconnect_attempts = 0;
  stale_rejections = 0;
  validation_failures = 0;
  disconnects = 0;
  slow_consumer_rejections = 0;
}

-- The limits that `__post_init__` copies from the configuration.
pub record Limits : Type 0 where
  pub max_in_flight_requests : ℕ
  pub max_queue_depth : ℕ
  pub connection_timeout_seconds : ℕ
  pub request_timeout_seconds : ℕ
  pub heartbeat_timeout_seconds : ℕ
  pub reconnect_attempts : ℕ

pub record BaseRuntime : Type 0 where
  pub role : String
  pub relay_id : String
  pub session_id : String
  pub started : Bool
  pub stats : RuntimeStats
  pub limits : Limits
  pub last_heartbeat_at : Option ℕ
  pub requests_drained : Bool

-- BaseRelayRuntime(config, role) and __post_init__
abbrev pub new_runtime : String → String → String → Limits → BaseRuntime
new_runtime role relay_id session_id limits = record {
  role = role;
  relay_id = relay_id;
  session_id = session_id;
  started = false;
  stats = no_stats;
  limits = limits;
  last_heartbeat_at = none;
  requests_drained = true;
}

-- `now` is the clock when the runtime starts.
unfoldable pub start : ℕ → BaseRuntime → BaseRuntime
start now b = record b { started = true; last_heartbeat_at = some now }

unfoldable pub ensure_started : Call BaseRuntime Unit
ensure_started b =
    if b.started
    then (ok tt, b)
    else (raised (runtime_error (b.role <> " runtime is not started")), b)

unfoldable pub too_many_requests : BaseRuntime → Exn
unfolding object
too_many_requests b = protocol_error (record {
  message = "Maximum in-flight requests exceeded";
  code = "backpressure_limit_exceeded";
  error_data = dict (object (("max_in_flight_requests", nat b.limits.max_in_flight_requests) ∷ []));
})

unfoldable pub queue_too_deep : BaseRuntime → Exn
unfolding object
queue_too_deep b = protocol_error (record {
  message = "Maximum queue depth exceeded";
  code = "slow_consumer_limit_exceeded";
  error_data = dict (object (("max_queue_depth", nat b.limits.max_queue_depth) ∷ []));
})

unfoldable pub guard_request : Call BaseRuntime Unit
guard_request b =
    if leb b.limits.max_in_flight_requests b.stats.active_requests
    then (raised (too_many_requests b), b)
    else if leb b.limits.max_queue_depth b.stats.queue_depth
    then (
      raised (queue_too_deep b),
      record b {
        stats = record b.stats { slow_consumer_rejections = b.stats.slow_consumer_rejections + 1 };
      },
    )
    else (
      ok tt,
      record b {
        stats = record b.stats {
          active_requests = b.stats.active_requests + 1;
          queue_depth = b.stats.queue_depth + 1;
        };
        requests_drained = false;
      },
    )

-- `max(0, n - 1)` is the subtraction of the naturals.
unfoldable pub finish_request : BaseRuntime → BaseRuntime
finish_request b = record b {
  stats = record b.stats {
    active_requests = b.stats.active_requests - 1;
    queue_depth = b.stats.queue_depth - 1;
    completed_requests = b.stats.completed_requests + 1;
  };
  requests_drained = if eqb (b.stats.active_requests - 1) 0 then true else b.requests_drained;
}

unfoldable pub record_heartbeat : ℕ → BaseRuntime → BaseRuntime
record_heartbeat now b = record b { last_heartbeat_at = some now }

unfoldable pub heartbeat_expired : ℕ → BaseRuntime → Bool
heartbeat_expired now b = elim b.last_heartbeat_at [
  | none ↦ false
  | some last ↦ ltb (b.limits.heartbeat_timeout_seconds * 1000000000) (now - last)
]

unfoldable pub record_validation_failure : BaseRuntime → BaseRuntime
record_validation_failure b = record b {
  stats = record b.stats { validation_failures = b.stats.validation_failures + 1 };
}

unfoldable pub record_disconnect : BaseRuntime → BaseRuntime
record_disconnect b = record b { stats = record b.stats { disconnects = b.stats.disconnects + 1 } }

unfoldable pub record_timeout : BaseRuntime → BaseRuntime
record_timeout b = record b {
  stats = record b.stats { timed_out_requests = b.stats.timed_out_requests + 1 };
}

-- Whether the exception is Python's TimeoutError.
abbrev pub is_timeout : Exn → Bool
is_timeout (other_error name _) = name == "TimeoutError"
is_timeout _ = false

unfoldable pub timed_out : String → ℕ → Exn
unfolding object
timed_out label timeout = protocol_error (record {
  message = label <> " timed out";
  code = "timeout";
  error_data = dict (object (("label", str label) ∷ ("timeout_seconds", nat timeout) ∷ []));
})

-- `_with_timeout`. asyncio's `wait_for` is the environment's: either the awaited call ends in time,
-- or the deadline comes when the call has changed the state as `expiry` says.
module _ {S A : Type 0} (update : (BaseRuntime → BaseRuntime) → S → S) where
  abbrev pub on_timeout : String → ℕ → Call S A
  on_timeout label timeout = modify (update record_timeout) >> raise (timed_out label timeout)

  abbrev pub with_timeout : Option (S → S) → String → ℕ → Call S A → Call S A
  with_timeout none label timeout m =
      catch m (λ e. if is_timeout e then on_timeout label timeout else raise e)
  with_timeout (some partial) label timeout m = modify partial >> on_timeout label timeout
