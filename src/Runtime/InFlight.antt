-- ===== src/Runtime/InFlight.antt =====
-- src/naia_relay/runtime/relay.py: the requests that a runtime serves at one time. A task of the
-- event loop counts from the return of `_guard_request` to `_finish_request` in its `finally`.
use naia_relay.Runtime.Guard.{
  Guarded, passes, too_many, too_deep, guard_request-Guarded, admits, turns_away,
}
use naia_relay.Prelude.{
  String, ◌≡◌, refl, ◌⊎◌, inl, inr, ℕ, suc, ◌≤◌, ◌<◌, arith, Bool-cases, leb, eqb,
}
use naia_relay.Call.{ok, raised, Result}
use naia_relay.Runtime.Base.{
  BaseRuntime, Limits, new_runtime, start, guard_request, too_many_requests, queue_too_deep,
  finish_request, record_heartbeat, record_timeout, record_disconnect, record_validation_failure,
}

-- A runtime, and how many tasks are past the guard.
pub record Server : Type 0 where
  pub runtime : BaseRuntime
  pub in_flight : ℕ

-- A task counts if the guard lets it through.
abbrev pub counted : Result Unit → ℕ → ℕ
counted (ok _) n = suc n
counted (raised _) n = n

-- What a task does between two awaits, and what the runtime does itself. The event loop may run
-- the steps of the tasks in any order.
pub data Step : Server → Server → Type 0 where
  arrived :
      {b : BaseRuntime} {n : ℕ}
      → Step
          (record { runtime = b; in_flight = n })
          (record { runtime = (guard_request b).1; in_flight = counted (guard_request b).0 n })
  finished :
      {b : BaseRuntime} {n : ℕ}
      → Step
          (record { runtime = b; in_flight = suc n })
          (record { runtime = finish_request b; in_flight = n })
  started :
      {b : BaseRuntime} {n : ℕ} (now : ℕ)
      → Step
          (record { runtime = b; in_flight = n })
          (record { runtime = start now b; in_flight = n })
  heartbeat :
      {b : BaseRuntime} {n : ℕ} (now : ℕ)
      → Step
          (record { runtime = b; in_flight = n })
          (record { runtime = record_heartbeat now b; in_flight = n })
  timed_out :
      {b : BaseRuntime} {n : ℕ}
      → Step
          (record { runtime = b; in_flight = n })
          (record { runtime = record_timeout b; in_flight = n })
  failed :
      {b : BaseRuntime} {n : ℕ}
      → Step
          (record { runtime = b; in_flight = n })
          (record { runtime = record_validation_failure b; in_flight = n })
  disconnected :
      {b : BaseRuntime} {n : ℕ}
      → Step
          (record { runtime = b; in_flight = n })
          (record { runtime = record_disconnect b; in_flight = n })

pub data Run : Server → Server → Type 0 where
  done : {s : Server} → Run s s
  more : {s t u : Server} → Run s t → Step t u → Run s u

-- The counters count the tasks, the limits bound them, and the event `_requests_drained` is set
-- when there is none.
pub record IsBalanced (limits : Limits) (s : Server) : Type 0 where
  pub active : s.runtime.stats.active_requests ≡ s.in_flight
  pub queued : s.runtime.stats.queue_depth ≡ s.in_flight
  pub limited : s.runtime.limits ≡ limits
  pub below_max : s.in_flight ≤ limits.max_in_flight_requests
  pub below_queue : s.in_flight ≤ limits.max_queue_depth
  pub drained : s.runtime.requests_drained ≡ eqb s.in_flight 0

-- The runtime that the constructor builds.
abbrev pub idle : String → String → String → Limits → Server
idle role relay session limits = record {
  runtime = new_runtime role relay session limits;
  in_flight = 0;
}

idle-IsBalanced :
    (role relay session : String) (limits : Limits)
    → IsBalanced limits (idle role relay session limits)
idle-IsBalanced role relay session limits = record {
  active = refl;
  queued = refl;
  limited = refl;
  below_max = ground arith;
  below_queue = ground arith;
  drained = refl;
}

finish-drained :
    (b : BaseRuntime) (n : ℕ)
    → b.stats.active_requests ≡ suc n
    → b.requests_drained ≡ eqb (suc n) 0
    → (finish_request b).requests_drained ≡ eqb n 0
unfolding finish_request
finish-drained b n h h' = ground arith

module _ {limits : Limits} where
  guard-IsBalanced :
      (b : BaseRuntime) (n : ℕ) (r : Result Unit × BaseRuntime)
      → Guarded b r
      → IsBalanced limits (record { runtime = b; in_flight = n })
      → IsBalanced limits (record { runtime = r.1; in_flight = counted r.0 n })
  guard-IsBalanced b n _ (passes below deep) h = record {
    active = grind (arith, h.active);
    queued = grind (arith, h.queued);
    limited = h.limited;
    below_max = grind (arith, h.active, h.limited);
    below_queue = grind (arith, h.queued, h.limited);
    drained = ground arith;
  }
  guard-IsBalanced b n _ too_many h = h
  guard-IsBalanced b n _ too_deep h = record {
    active = h.active;
    queued = h.queued;
    limited = h.limited;
    below_max = h.below_max;
    below_queue = h.below_queue;
    drained = h.drained;
  }

  step-IsBalanced : {s t : Server} → Step s t → IsBalanced limits s → IsBalanced limits t
  step-IsBalanced (arrived {b = b} {n = n}) h =
      guard-IsBalanced b n (guard_request b) (guard_request-Guarded b) h
  step-IsBalanced (finished {b = b} {n = n}) h =
      let drained = finish-drained b n h.active h.drained in
      unfold finish_request in
      record {
        active = grind (arith, h.active);
        queued = grind (arith, h.queued);
        limited = h.limited;
        below_max = grind (arith, h.below_max);
        below_queue = grind (arith, h.below_queue);
        drained = drained;
      }
  step-IsBalanced (started now) h =
      unfold start in
      record {
        active = h.active;
        queued = h.queued;
        limited = h.limited;
        below_max = h.below_max;
        below_queue = h.below_queue;
        drained = h.drained;
      }
  step-IsBalanced (heartbeat now) h =
      unfold record_heartbeat in
      record {
        active = h.active;
        queued = h.queued;
        limited = h.limited;
        below_max = h.below_max;
        below_queue = h.below_queue;
        drained = h.drained;
      }
  step-IsBalanced timed_out h =
      unfold record_timeout in
      record {
        active = h.active;
        queued = h.queued;
        limited = h.limited;
        below_max = h.below_max;
        below_queue = h.below_queue;
        drained = h.drained;
      }
  step-IsBalanced failed h =
      unfold record_validation_failure in
      record {
        active = h.active;
        queued = h.queued;
        limited = h.limited;
        below_max = h.below_max;
        below_queue = h.below_queue;
        drained = h.drained;
      }
  step-IsBalanced disconnected h =
      unfold record_disconnect in
      record {
        active = h.active;
        queued = h.queued;
        limited = h.limited;
        below_max = h.below_max;
        below_queue = h.below_queue;
        drained = h.drained;
      }

-- From a new runtime, in whatever order its tasks run, the counters `active_requests` and
-- `queue_depth` are the number of the requests in flight, both limits bound them, and the drained
-- event is set exactly when none is left.
pub reachable-IsBalanced :
    (role relay session : String) (limits : Limits) (s : Server)
    → Run (idle role relay session limits) s
    → IsBalanced limits s
reachable-IsBalanced role relay session limits s done = idle-IsBalanced role relay session limits
reachable-IsBalanced role relay session limits s (more r step) =
    step-IsBalanced step (reachable-IsBalanced role relay session limits _ r)

-- In every server that a new runtime can come to, either fewer requests than both limits are in
-- flight and the guard lets the next one through, or one of the limits is reached and the guard
-- raises one of its two protocol errors.
pub admission :
    (role relay session : String) (limits : Limits) (s : Server)
    → Run (idle role relay session limits) s
    → ((s.in_flight < limits.max_in_flight_requests)
        × (s.in_flight < limits.max_queue_depth)
        × ((guard_request s.runtime).0 ≡ ok tt))
      ⊎ (((limits.max_in_flight_requests ≤ s.in_flight) ⊎ (limits.max_queue_depth ≤ s.in_flight))
          × (((guard_request s.runtime).0 ≡ raised (too_many_requests s.runtime))
              ⊎ ((guard_request s.runtime).0 ≡ raised (queue_too_deep s.runtime))))
admission role relay session limits s r =
    let h = reachable-IsBalanced role relay session limits s r in
    elim (Bool-cases (leb limits.max_in_flight_requests s.in_flight)) [
      | inl full ↦
          inr (inl (ground arith), turns_away s.runtime (inl (grind (arith, h.active, h.limited))))
      | inr free ↦ elim (Bool-cases (leb limits.max_queue_depth s.in_flight)) [
        | inl full ↦
            inr
              (inr (ground arith), turns_away s.runtime (inr (grind (arith, h.queued, h.limited))))
        | inr room ↦ inl (
          ground arith,
          ground arith,
          admits s.runtime (grind (arith, h.active, h.limited))
              (grind (arith, h.queued, h.limited)),
        )
      ]
    ]
