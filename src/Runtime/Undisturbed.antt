-- ===== src/Runtime/Undisturbed.antt =====
-- What an MCP message does to a direct runtime beside its answer.
use naia_relay.Prelude.{
  ◌≡◌, refl, sym, subst, ◌∙◌, inl, inr, ◌+◌, arith, Option, none, some, Bool-cases,
}
use naia_relay.Json.{Value, Object}
use naia_relay.Errors.{Interpreter}
use naia_relay.Call.{Call, Result, Result-cases, finally, continue, ◌>>◌}
use naia_relay.Pydantic.{Checked}
use naia_relay.Registry.Store.{get_tool, get_resource, get_prompt}
use naia_relay.Mcp.Response.{JsonRpcRequest}
use naia_relay.Mcp.Keeps.{handle_message-keeps}
use naia_relay.Runtime.Base.{
  BaseRuntime, is_timeout, ensure_started, guard_request, finish_request, record_timeout,
  record_validation_failure,
}
use naia_relay.Runtime.Serve.{with_request_timeout}
use naia_relay.Runtime.Guard.{
  Guarded, passes, too_many, too_deep, guard_request-Guarded, Ensured, up, down,
  ensure_started-Ensured,
}
use naia_relay.Runtime.Serve as Serve
use naia_relay.Runtime.Direct.{
  DirectWorld, DirectRuntime, direct_holds, look_up, run_execution, call_tool, read_resource,
  get_prompt_messages, mcp_callbacks, mcp_call, handle_mcp_message,
}

-- The counters of running work, and the registry, of two worlds are the same.
pub record Undisturbed (old new : DirectWorld) : Type 0 where
  pub same_registry : new.registry ≡ old.registry
  pub same_active : new.base.stats.active_requests ≡ old.base.stats.active_requests
  pub same_queue : new.base.stats.queue_depth ≡ old.base.stats.queue_depth
  pub same_executions : new.base.stats.active_executions ≡ old.base.stats.active_executions

unchanged : (w : DirectWorld) → Undisturbed w w
unchanged w = record {
  same_registry = refl;
  same_active = refl;
  same_queue = refl;
  same_executions = refl;
}

module _ (python : Interpreter) where
  run_execution-world :
      (name arguments : Value) (w : DirectWorld) → (run_execution python name arguments w).1 ≡ w
  run_execution-world name arguments w =
      elim (Result-cases (look_up python get_tool name w.registry)) [
        | inl (none, e) ↦ rw (e, run_execution) refl
        | inl (some _, e) ↦ rw (e, run_execution) refl
        | inr (_, e) ↦ rw (e, run_execution) refl
      ]

  read_resource-world :
      (uri arguments : Value) (w : DirectWorld) → (read_resource python uri arguments w).1 ≡ w
  unfolding read_resource
  read_resource-world uri arguments w =
      elim (Result-cases (look_up python get_resource uri w.registry)) [
        | inl (none, e) ↦ rw (e, read_resource) refl
        | inl (some _, e) ↦ rw (e, read_resource) refl
        | inr (_, e) ↦ rw (e, read_resource) refl
      ]

  get_prompt-world :
      (name arguments : Value) (w : DirectWorld)
      → (get_prompt_messages python name arguments w).1 ≡ w
  unfolding get_prompt_messages
  get_prompt-world name arguments w =
      elim (Result-cases (look_up python get_prompt name w.registry)) [
        | inl (none, e) ↦ rw (e, get_prompt_messages) refl
        | inl (some _, e) ↦ rw (e, get_prompt_messages) refl
        | inr (_, e) ↦ rw (e, get_prompt_messages) refl
      ]

  call_tool-keeps :
      (old : DirectWorld) (name arguments : Value) (w : DirectWorld)
      → Undisturbed old w
      → Undisturbed old (call_tool python name arguments w).1
  unfolding call_tool
  call_tool-keeps old name arguments w h = rw (run_execution-world name arguments _) (record {
    same_registry = h.same_registry;
    same_active = h.same_active;
    same_queue = h.same_queue;
    same_executions = grind (arith, h.same_executions);
  })

  -- The handler behind the guard, with the deadline not reached.
  served-keeps :
      (old : DirectWorld) (check : Object → Checked JsonRpcRequest) (message : Object)
      (s : DirectRuntime)
      → Undisturbed old s.world
      → Undisturbed old (mcp_call python check message s).1.world
  served-keeps old check message s h =
      handle_message-keeps (Undisturbed old) (λ w. w.registry) (mcp_callbacks python) python
        (λ name arguments w h'. call_tool-keeps old name arguments w h')
        (λ uri arguments w h'.
          subst (Undisturbed old) (sym (read_resource-world uri arguments w)) h')
        (λ name arguments w h'.
          subst (Undisturbed old) (sym (get_prompt-world name arguments w)) h')
        check message (record { handler = s.mcp_handler; world = s.world }) h

module _ {A : Type 0} (old : DirectWorld) where
  timeout-keeps :
      (m : Call DirectRuntime A) (s : DirectRuntime)
      → Undisturbed old (m s).1.world
      → Undisturbed old (with_request_timeout direct_holds none m s).1.world
  unfolding with_request_timeout record_timeout
  timeout-keeps m s h = elim (Result-cases (m s).0) [
    | inl (a, e) ↦ rw e h
    | inr (x, e) ↦ elim (Bool-cases (is_timeout x)) [
      | inl late ↦
          rw (e, late)
            (record {
              same_registry = h.same_registry;
              same_active = h.same_active;
              same_queue = h.same_queue;
              same_executions = h.same_executions;
            })
      | inr other ↦ rw (e, other) h
    ]
  ]

  failures-keep :
      (m : Call DirectRuntime A) (s : DirectRuntime)
      → Undisturbed old (m s).1.world
      → Undisturbed old (Serve.counting_failures direct_holds m s).1.world
  unfolding record_validation_failure
  failures-keep m s h = elim (Result-cases (m s).0) [
    | inl (a, e) ↦ rw e h
    | inr (x, e) ↦ rw e (record {
      same_registry = h.same_registry;
      same_active = h.same_active;
      same_queue = h.same_queue;
      same_executions = h.same_executions;
    })
  ]

module _ (python : Interpreter) (check : Object → Checked JsonRpcRequest) (message : Object) where
  abbrev behind_guard : Call DirectRuntime (Option Object)
  behind_guard =
      finally
        (Serve.counting_failures direct_holds
          (with_request_timeout direct_holds none (mcp_call python check message)))
        (direct_holds.update finish_request)

  finished :
      (s s' : DirectRuntime)
      → s'.world.base.stats.active_requests ≡ s.world.base.stats.active_requests + 1
      → s'.world.base.stats.queue_depth ≡ s.world.base.stats.queue_depth + 1
      → s'.world.base.stats.active_executions ≡ s.world.base.stats.active_executions
      → s'.world.registry ≡ s.world.registry
      → Undisturbed s.world (behind_guard s').1.world
  unfolding finish_request
  finished s s' a q e r =
      let h =
        failures-keep s'.world
          (with_request_timeout direct_holds none (mcp_call python check message)) s'
          (timeout-keeps s'.world (mcp_call python check message) s'
            (served-keeps python s'.world check message s' (unchanged s'.world))) in
      record {
        same_registry = h.same_registry ∙ r;
        same_active = grind (arith, h.same_active);
        same_queue = grind (arith, h.same_queue);
        same_executions = h.same_executions ∙ e;
      }

  guarded :
      (s : DirectRuntime) (r : Result Unit × BaseRuntime)
      → Guarded s.world.base r
      → Undisturbed s.world
          (continue r.0 (λ _. behind_guard) (direct_holds.update (λ _. r.1) s)).1.world
  guarded s _ (passes below deep) = finished s _ refl refl refl refl
  guarded s _ too_many = unchanged s.world
  guarded s _ too_deep = record {
    same_registry = refl;
    same_active = refl;
    same_queue = refl;
    same_executions = refl;
  }

  begun :
      (s : DirectRuntime) (r : Result Unit × BaseRuntime)
      → Ensured s.world.base r
      → Undisturbed s.world
          (((λ s'.
                continue r.0
                  (λ _. Serve.on_base direct_holds guard_request)
                  (direct_holds.update (λ _. r.1) s'))
              >> behind_guard)
            s).1.world
  begun s _ up = guarded s (guard_request s.world.base) (guard_request-Guarded s.world.base)
  begun s _ down = unchanged s.world

  -- Whatever an MCP message asks of a direct runtime, and whether it is answered, raises or is
  -- turned away at the guard, the registry is as before, and so are the numbers of active requests,
  -- of queued requests and of active executions, if no deadline cuts the handler off.
  pub handle_mcp_message-Undisturbed :
      (s : DirectRuntime)
      → Undisturbed s.world (handle_mcp_message python check none message s).1.world
  unfolding handle_mcp_message Serve.handle_mcp_message ensure_started
  handle_mcp_message-Undisturbed s =
      begun s (ensure_started s.world.base) (ensure_started-Ensured s.world.base)
