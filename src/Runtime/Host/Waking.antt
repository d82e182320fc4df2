-- ===== src/Runtime/Host/Waking.antt =====
-- What ends the wait of a host's callback: a detached transport, or the executor's answer.
use naia_relay.Prelude.{
  ◌≡◌, refl, sym, ap, ◌∙◌, inl, inr, ℕ, String, Option, some, eq_refl, true, false,
}
use naia_relay.Prelude.Dict.{Dict, lookup, lookup-insert}
use naia_relay.Prelude.Dict.Maps.{map_option, lookup-map_values}
use naia_relay.Json.{Value, Object, dict, get, str, truthy}
use naia_relay.Errors.{Exn, Interpreter}
use naia_relay.Call.{Call, Result, ok, raised, Result-cases}
use naia_relay.Pydantic.{valid}
use naia_relay.Tep.Models.{Models, ExecutionResultPayload}
use naia_relay.Tep.Handler.{handle_message_or_error}
use naia_relay.Rlp.Models.{ExecuteToolPayload}
use naia_relay.Runtime.Base.{record_timeout, timed_out}
use naia_relay.Runtime.Serve.{with_request_timeout}
use naia_relay.Runtime.Direct.{tep_callbacks}
use naia_relay.Runtime.Host.{
  host_holds, HostRuntime, Future, waiting, settled, settle, settle_one, disconnected, detaches,
  detach_executor_transport, fail_pending_executor_operations, on_tep,
}
use naia_relay.Runtime.Host.Callbacks.{
  resume, awaits, begin_execution, send_executor_message, execution_message,
}
use naia_relay.Runtime.Host.Stdio.{
  handle_kind, handle_executor_stdio_message, kind_of, execution_id, payload,
}
use naia_relay.Runtime.Host.Resuming.{
  Table, executions, requests, pending, leave, await, await_resumes,
}

module _ {P : Type 0} where
  -- Once the future is settled with a value, the call returns the value and its entry is gone.
  await-ok :
      (table : Table) (id : String) (v : Value) (s : HostRuntime P)
      → lookup id (pending table s) ≡ some (settled (ok v))
      → await table false id s ≡ some (ok v, leave table id s)
  unfolding with_request_timeout record_timeout
  await-ok table id v s h =
      await_resumes table false id s ∙ ap (λ f. resume false (leave table id) f s) h

  await-disconnected :
      (table : Table) (id : String) (s : HostRuntime P)
      → lookup id (pending table s) ≡ some (settled (raised disconnected))
      → await table false id s ≡ some (raised disconnected, leave table id s)
  unfolding with_request_timeout record_timeout
  await-disconnected table id s h =
      await_resumes table false id s ∙ ap (λ f. resume false (leave table id) f s) h

  await-late :
      (table : Table) (id : String) (f : Future) (s : HostRuntime P)
      → lookup id (pending table s) ≡ some f
      → await table true id s
        ≡ some (
          raised (timed_out "Request" s.base.limits.request_timeout_seconds),
          leave table id (host_holds.update record_timeout s),
        )
  unfolding with_request_timeout record_timeout
  await-late table id f s h =
      await_resumes table true id s ∙ ap (λ f. resume true (leave table id) f s) h

  detach-pending :
      (table : Table) (adapter : Option ℕ) (id : String) (s : HostRuntime P)
      → detaches adapter s.executor_transport ≡ true
      → lookup id (pending table (detach_executor_transport adapter s))
        ≡ map_option (settle_one (raised disconnected)) (lookup id (pending table s))
  unfolding detach_executor_transport fail_pending_executor_operations
  detach-pending executions adapter id s ours =
      rw ours (lookup-map_values (settle_one (raised disconnected)) id s.pending_executions)
  detach-pending requests adapter id s ours =
      rw ours (lookup-map_values (settle_one (raised disconnected)) id s.pending_requests)

  -- When the attached transport is detached, every call that waits on a future is resumed. It raises
  -- the executor's disconnection, or, when its deadline cuts it off, the timeout of the request, which
  -- is counted. Its entry is gone either way.
  pub detach_wakes :
      (table : Table) (adapter : Option ℕ) (id : String) (s : HostRuntime P)
      → detaches adapter s.executor_transport ≡ true
      → lookup id (pending table s) ≡ some waiting
      → let s' = detach_executor_transport adapter s in
        (await table false id s' ≡ some (raised disconnected, leave table id s'))
        × (await table true id s'
            ≡ some (
              raised (timed_out "Request" s'.base.limits.request_timeout_seconds),
              leave table id (host_holds.update record_timeout s'),
            ))
  detach_wakes table adapter id s ours h =
      let s' = detach_executor_transport adapter s in
      let woken =
        detach-pending table adapter id s ours
        ∙ ap (map_option (settle_one (raised disconnected))) h in
      (
        await-disconnected table id s' woken,
        await-late table id (settled (raised disconnected)) s' woken,
      )

settle-waiting :
    (id : String) (r : Result Value) (d : Dict Future)
    → lookup id d ≡ some waiting
    → lookup id (settle id r d) ≡ some (settled r)
unfolding settle
settle-waiting id r d h = rw (h, settle, lookup-insert id id (settled r) d, eq_refl id) refl

module _ {P : Type 0} (python : Interpreter) (models : Models) (mid : String)
    (message : Object) where
  -- A valid result settles the future of its execution.
  result-settles :
      (o : Object) (p : ExecutionResultPayload) (response : Option Object) (s : HostRuntime P)
      → get "message_type" message ≡ some (str "execution_result")
      → payload message ≡ dict o
      → models.execution_result o ≡ valid p
      → (handle_executor_stdio_message python models mid message s).0 ≡ ok response
      → lookup (execution_id python message) s.pending_executions ≡ some waiting
      → lookup
          (execution_id python message)
          (handle_executor_stdio_message python models mid message s).1.pending_executions
        ≡ some (settled (ok (dict p.result)))
  unfolding handle_executor_stdio_message kind_of handle_kind truthy
  result-settles o p response s kind given checked =
      rw (kind, given, checked)
        (elim (Result-cases
          (on_tep python (handle_message_or_error (tep_callbacks python) mid models python message)
            s).0) [
              | inl (a, e) ↦ rw e (λ done h.
                  settle-waiting (execution_id python message) (ok (dict p.result))
                    s.pending_executions h)
              | inr (x, e) ↦ rw e (λ done h. absurd (cc done))
            ])

module _ {P : Type 0} (python : Interpreter) (send : ℕ → Object → Call P Unit) where
  module _ (mid id : String) (p : ExecuteToolPayload) (adapter : ℕ) (s : HostRuntime P) where
    begin-waiting :
        s.executor_transport ≡ some adapter
        → (send adapter (execution_message mid id p s) s.executor).0 ≡ ok tt
        → ((begin_execution python send mid id p s).0 ≡ ok (awaits id))
          × (lookup id (begin_execution python send mid id p s).1.pending_executions ≡ some waiting)
    unfolding begin_execution send_executor_message
    begin-waiting attached sent =
        rw (attached, sent, lookup-insert id id waiting s.pending_executions, eq_refl id)
          (refl, refl)

    -- When an executor is attached but the message to it cannot be sent, the execution raises the
    -- send's exception, and the future that was made for it stays in the table.
    unsent_execution_stays :
        (x : Exn)
        → s.executor_transport ≡ some adapter
        → (send adapter (execution_message mid id p s) s.executor).0 ≡ raised x
        → ((begin_execution python send mid id p s).0 ≡ raised x)
          × (lookup id (begin_execution python send mid id p s).1.pending_executions ≡ some waiting)
    unfolding begin_execution send_executor_message
    unsent_execution_stays x attached unsent =
        rw (attached, unsent, lookup-insert id id waiting s.pending_executions, eq_refl id)
          (refl, refl)

  -- An execution whose message is sent to the attached executor waits on the id of its own. Once the
  -- host has handled a valid `execution_result` under that id, the execution returns the result, or
  -- raises the timeout of the request when its deadline cuts it off. Its entry is gone either way.
  pub execution_answered :
      (models : Models) (mid id mid' : String) (p : ExecuteToolPayload) (adapter : ℕ)
      (message o : Object) (q : ExecutionResultPayload) (response : Option Object)
      (s : HostRuntime P)
      → s.executor_transport ≡ some adapter
      → (send adapter (execution_message mid id p s) s.executor).0 ≡ ok tt
      → get "message_type" message ≡ some (str "execution_result")
      → execution_id python message ≡ id
      → payload message ≡ dict o
      → models.execution_result o ≡ valid q
      → let begun = begin_execution python send mid id p s in
        let heard = handle_executor_stdio_message python models mid' message begun.1 in
        (heard.0 ≡ ok response)
        → (begun.0 ≡ ok (awaits id))
          × (await executions false id heard.1
              ≡ some (ok (dict q.result), leave executions id heard.1))
          × (await executions true id heard.1
              ≡ some (
                raised (timed_out "Request" heard.1.base.limits.request_timeout_seconds),
                leave executions id (host_holds.update record_timeout heard.1),
              ))
  execution_answered models mid id mid' p adapter message o q response s attached sent kind same
        given checked done =
      let (begun, there) = begin-waiting mid id p adapter s attached sent in
      let began = (begin_execution python send mid id p s).1 in
      let heard = (handle_executor_stdio_message python models mid' message began).1 in
      let before = ap (λ i. lookup i began.pending_executions) same ∙ there in
      let after =
        result-settles python models mid' message o q response began kind given checked done
          before in
      let there = sym (ap (λ i. lookup i heard.pending_executions) same) ∙ after in
      (
        begun,
        await-ok executions id (dict q.result) heard there,
        await-late executions id (settled (ok (dict q.result))) heard there,
      )
