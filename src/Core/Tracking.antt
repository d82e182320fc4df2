-- ===== src/Core/Tracking.antt =====
-- src/naia_relay/core/tracking.py. The two trackers are dictionaries by id.
use Prim.Native.String.{◌++◌ as ◌<>◌}
use naia_relay.Prelude.{ℕ, String, Option, none, some, if◌then◌else◌, length}
use naia_relay.Prelude.Dict.{Dict, lookup, contains, insert, erase}
use naia_relay.Json.{Object}
use naia_relay.Errors.{value_error, key_error}
use naia_relay.Call.{Call, ok, raised}

pub record PendingRequest : Type 0 where
  pub request_id : String
  pub message_id : String
  pub metadata : Object

pub record ExecutionState : Type 0 where
  pub execution_id : String
  pub tool_name : String
  pub status : String
  pub metadata : Object

abbrev pub RequestTracker : Type 0
RequestTracker = Dict PendingRequest

abbrev pub ExecutionTracker : Type 0
ExecutionTracker = Dict ExecutionState

unfoldable pub add_request : PendingRequest → Call RequestTracker Unit
unfolding contains insert
add_request request d =
    if contains request.request_id d
    then (raised (value_error ("Duplicate request_id: " <> request.request_id)), d)
    else (ok tt, insert request.request_id request d)

unfoldable pub get_request : String → RequestTracker → Option PendingRequest
unfolding lookup
get_request id d = lookup id d

unfoldable pub pop_request : String → Call RequestTracker (Option PendingRequest)
unfolding lookup erase
pop_request id d = (ok (lookup id d), erase id d)

abbrev pub count_requests : RequestTracker → ℕ
count_requests d = length d

unfoldable pub add_execution : ExecutionState → Call ExecutionTracker Unit
unfolding contains insert
add_execution state d =
    if contains state.execution_id d
    then (raised (value_error ("Duplicate execution_id: " <> state.execution_id)), d)
    else (ok tt, insert state.execution_id state d)

unfoldable pub get_execution : String → ExecutionTracker → Option ExecutionState
unfolding lookup
get_execution id d = lookup id d

unfoldable pub update_status : String → String → Call ExecutionTracker ExecutionState
unfolding lookup insert
update_status id status d = elim (lookup id d) [
  | none ↦ (raised (key_error id), d)
  | some state ↦ let state' = record state { status = status } in (ok state', insert id state' d)
]

unfoldable pub pop_execution : String → Call ExecutionTracker (Option ExecutionState)
unfolding lookup erase
pop_execution id d = (ok (lookup id d), erase id d)

abbrev pub count_executions : ExecutionTracker → ℕ
count_executions d = length d
