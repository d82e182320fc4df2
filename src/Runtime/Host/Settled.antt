-- ===== src/Runtime/Host/Settled.antt =====
-- A future is settled once: what a host's callback waits for does not change after it has come.
use naia_relay.Runtime.Host.Resuming.{
  Table, executions, requests, pending, await, outcome, others_stay, Kept-pending,
}
use naia_relay.Prelude.{◌≡◌, ◌⊎◌, inl, inr, ℕ, String, Bool, none, some}
use naia_relay.Prelude.Dict.{lookup}
use naia_relay.Json.{Value, Object}
use naia_relay.Errors.{Interpreter}
use naia_relay.Call.{Call, Result, Result-cases}
use naia_relay.Tep.Models.{Models}
use naia_relay.Rlp.Models.{ExecuteToolPayload, ReadResourcePayload, GetPromptPayload}
use naia_relay.Tep.Handler.{handle_message_or_error}
use naia_relay.Runtime.Direct.{tep_callbacks}
use naia_relay.Runtime.Host.{HostRuntime, settled, on_tep, attach_executor_transport}
use naia_relay.Runtime.Host.Callbacks.{
  begin_execution, begin_read, begin_prompt, execution_message, request_message, read_keys,
  prompt_keys, enter_execution, enter_request,
}
use naia_relay.Runtime.Host.Stdio.{
  Kind, response, progress, execution_result, execution_error, resource_result, prompt_result,
  other, handle_kind, handle_executor_stdio_message, execution_id, request_id,
}
use naia_relay.Runtime.Host.Exchange.{
  Step, executes, reads, prompts, hears, attaches, detached, resumes_execution, resumes_request,
}
use naia_relay.Runtime.Host.Kept.{
  Kept, settle-settled, ask_executor-Kept, unless_attached-Kept, enter_execution-Kept,
  enter_request-Kept, detach-Kept, answer_request-Kept, answer_then-Kept,
}

module _ {P : Type 0} (python : Interpreter) (models : Models) (mid : String)
    (message : Object) where
  handle_kind-Kept :
      (k : Kind) (s : HostRuntime P) → Kept s (handle_kind python models mid message k s).1
  unfolding handle_kind
  handle_kind-Kept response s = answer_request-Kept python models mid message s
  handle_kind-Kept progress s =
      answer_then-Kept python models mid message models.execution_progress _ s
        (λ p s'. record { executions = λ _ _ h. h; requests = λ _ _ h. h })
  handle_kind-Kept execution_result s =
      answer_then-Kept python models mid message models.execution_result _ s (λ p s'. record {
        executions =
            λ id r h. settle-settled id (execution_id python message) r _ s'.pending_executions h;
        requests = λ _ _ h. h;
      })
  handle_kind-Kept execution_error s =
      answer_then-Kept python models mid message models.execution_error _ s (λ p s'. record {
        executions =
            λ id r h. settle-settled id (execution_id python message) r _ s'.pending_executions h;
        requests = λ _ _ h. h;
      })
  handle_kind-Kept resource_result s =
      answer_then-Kept python models mid message models.resource_result _ s (λ p s'. record {
        executions = λ _ _ h. h;
        requests =
            λ id r h. settle-settled id (request_id python message) r _ s'.pending_requests h;
      })
  handle_kind-Kept prompt_result s =
      answer_then-Kept python models mid message models.prompt_result _ s (λ p s'. record {
        executions = λ _ _ h. h;
        requests =
            λ id r h. settle-settled id (request_id python message) r _ s'.pending_requests h;
      })
  handle_kind-Kept other s =
      elim (Result-cases
        (on_tep python (handle_message_or_error (tep_callbacks python) mid models python message)
          s).0) [
            | inl (a, e) ↦ rw e (record { executions = λ _ _ h. h; requests = λ _ _ h. h })
            | inr (x, e) ↦ rw e (record { executions = λ _ _ h. h; requests = λ _ _ h. h })
          ]

  pub handle_executor-Kept :
      (s : HostRuntime P) → Kept s (handle_executor_stdio_message python models mid message s).1
  unfolding handle_executor_stdio_message
  handle_executor-Kept s = handle_kind-Kept _ s

module _ {P : Type 0} (python : Interpreter) (models : Models)
    (send : ℕ → Object → Call P Unit) where
  begin_execution-Kept :
      (mid id : String) (p : ExecuteToolPayload) (s : HostRuntime P)
      → lookup id s.pending_executions ≡ none
      → Kept s (begin_execution python send mid id p s).1
  unfolding begin_execution
  begin_execution-Kept mid id p s free = unless_attached-Kept send s.executor_transport _ _ s (
      ask_executor-Kept send id (enter_execution id) (execution_message mid id p) s
        (enter_execution-Kept send id s free))

  begin_read-Kept :
      (mid : String) (p : ReadResourcePayload) (s : HostRuntime P)
      → lookup mid s.pending_requests ≡ none
      → Kept s (begin_read python send mid p s).1
  unfolding begin_read
  begin_read-Kept mid p s free = unless_attached-Kept send s.executor_transport _ _ s (
      ask_executor-Kept send mid (enter_request mid)
        (request_message "read_resource" mid (read_keys p)) s (enter_request-Kept send mid s free))

  begin_prompt-Kept :
      (mid : String) (p : GetPromptPayload) (s : HostRuntime P)
      → lookup mid s.pending_requests ≡ none
      → Kept s (begin_prompt python send mid p s).1
  unfolding begin_prompt
  begin_prompt-Kept mid p s free = unless_attached-Kept send s.executor_transport _ _ s (
      ask_executor-Kept send mid (enter_request mid)
        (request_message "get_prompt" mid (prompt_keys p)) s (enter_request-Kept send mid s free))

  -- In every step of the exchange, a settled future keeps its result, or the step is that of the
  -- call that waits on it, which returns or raises that result. When the deadline cuts the call off,
  -- or the result is itself a timeout, it raises the timeout of the request instead.
  pub settled_once :
      (table : Table) (id : String) (r : Result Value) {s t : HostRuntime P}
      → Step python models send s t
      → lookup id (pending table s) ≡ some (settled r)
      → (lookup id (pending table t) ≡ some (settled r))
        ⊎ ((late : Bool) × (await table late id s ≡ some (outcome late r s, t)))
  unfolding attach_executor_transport
  settled_once table id r {s} (executes mid j p free) h =
      inl (Kept-pending table id r s _ (begin_execution-Kept mid j p s free) h)
  settled_once table id r {s} (reads mid p free) h =
      inl (Kept-pending table id r s _ (begin_read-Kept mid p s free) h)
  settled_once table id r {s} (prompts mid p free) h =
      inl (Kept-pending table id r s _ (begin_prompt-Kept mid p s free) h)
  settled_once table id r {s} (hears mid message) h =
      inl (Kept-pending table id r s _ (handle_executor-Kept python models mid message s) h)
  settled_once executions id r (attaches adapter) h = inl h
  settled_once requests id r (attaches adapter) h = inl h
  settled_once table id r {s} (detached adapter) h =
      inl (Kept-pending table id r s _ (detach-Kept adapter s) h)
  settled_once table id r {s} {t} (resumes_execution late j v e) h =
      elim (others_stay table executions late id j r v s t h e) [
        | inl a ↦ inl a
        | inr b ↦ inr (late, b)
      ]
  settled_once table id r {s} {t} (resumes_request late j v e) h =
      elim (others_stay table requests late id j r v s t h e) [
        | inl a ↦ inl a
        | inr b ↦ inr (late, b)
      ]
