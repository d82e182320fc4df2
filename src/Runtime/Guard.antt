-- ===== src/Runtime/Guard.antt =====
-- What `_ensure_started` and `_guard_request` may do to a runtime.
use naia_relay.Prelude.{
  ◌≡◌, refl, ◌⊎◌, inl, inr, ℕ, ◌+◌, ◌≤◌, ◌<◌, Bool, true, false, arith, Bool-cases, if◌then◌else◌,
  leb,
}
use naia_relay.Errors.{Exn}
use naia_relay.Call.{ok, raised, Result}
use naia_relay.Runtime.Base.{
  BaseRuntime, ensure_started, guard_request, too_many_requests, queue_too_deep,
}

-- `_ensure_started` changes nothing.
pub data Ensured (b : BaseRuntime) : Result Unit × BaseRuntime → Type 0 where
  up : Ensured b (ok tt, b)
  down : {e : Exn} → Ensured b (raised e, b)

pub ensure_started-Ensured : (b : BaseRuntime) → Ensured b (ensure_started b)
unfolding ensure_started
ensure_started-Ensured b = go b.started _
  where
    go : (started : Bool) (e : Exn) → Ensured b (if started then (ok tt, b) else (raised e, b))
    go true e = up
    go false e = down

-- The three cases of the guard.
pub data Guarded (b : BaseRuntime) : Result Unit × BaseRuntime → Type 0 where
  passes :
      b.stats.active_requests < b.limits.max_in_flight_requests
      → b.stats.queue_depth < b.limits.max_queue_depth
      → Guarded b (
        ok tt,
        record b {
          stats = record b.stats {
            active_requests = b.stats.active_requests + 1;
            queue_depth = b.stats.queue_depth + 1;
          };
          requests_drained = false;
        },
      )
  too_many : {e : Exn} → Guarded b (raised e, b)
  too_deep :
      {e : Exn} {k : ℕ}
      → Guarded b (raised e, record b { stats = record b.stats { slow_consumer_rejections = k } })

pub guard_request-Guarded : (b : BaseRuntime) → Guarded b (guard_request b)
unfolding guard_request
guard_request-Guarded b =
    elim (Bool-cases (leb b.limits.max_in_flight_requests b.stats.active_requests)) [
      | inl h ↦ rw h too_many
      | inr h ↦ elim (Bool-cases (leb b.limits.max_queue_depth b.stats.queue_depth)) [
        | inl h' ↦ rw (h, h') too_deep
        | inr h' ↦ rw (h, h') (passes (ground arith) (ground arith))
      ]
    ]

pub admits :
    (b : BaseRuntime)
    → b.stats.active_requests < b.limits.max_in_flight_requests
    → b.stats.queue_depth < b.limits.max_queue_depth
    → (guard_request b).0 ≡ ok tt
unfolding guard_request
admits b h h' = ground arith

pub turns_away :
    (b : BaseRuntime)
    → (b.limits.max_in_flight_requests ≤ b.stats.active_requests)
      ⊎ (b.limits.max_queue_depth ≤ b.stats.queue_depth)
    → ((guard_request b).0 ≡ raised (too_many_requests b))
      ⊎ ((guard_request b).0 ≡ raised (queue_too_deep b))
unfolding guard_request
turns_away b (inl h) = inl (ground arith)
turns_away b (inr h) =
    elim (Bool-cases (leb b.limits.max_in_flight_requests b.stats.active_requests)) [
      | inl full ↦ inl (rw full refl)
      | inr free ↦ inr (rw free (ground arith))
    ]
