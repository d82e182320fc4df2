-- ===== src/Runtime/Host/Kept.antt =====
-- Which calls of a host leave its settled futures as they are.
use naia_relay.Prelude.{
  ◌≡◌, refl, ap, ◌∙◌, subst, inl, inr, ℕ, String, Option, none, some, eq_iff, ◌==◌, Bool-cases,
  Option-cases,
}
use naia_relay.Prelude.Dict.{Dict, lookup, insert, lookup-insert}
use naia_relay.Prelude.Dict.Maps.{map_values, map_option, lookup-map_values}
use naia_relay.Json.{Value, Object}
use naia_relay.Errors.{Interpreter}
use naia_relay.Call.{Call, Result, raised, Result-cases}
use naia_relay.Pydantic.{Checked}
use naia_relay.Tep.Models.{Models}
use naia_relay.Tep.Handler.{handle_message_or_error}
use naia_relay.Runtime.Direct.{tep_callbacks}
use naia_relay.Runtime.Host.{
  HostRuntime, Future, waiting, settled, settle, settle_one, detach_executor_transport,
  fail_pending_executor_operations, detaches, disconnected, on_tep,
}
use naia_relay.Runtime.Host.Callbacks.{
  send_executor_message, send_to, ask_executor, unless_attached, enter_execution, enter_request,
  Begun,
}
use naia_relay.Runtime.Host.Stdio.{
  answer_request, answer_then, executor_answer, request_id, payload, validate,
}

-- A settled future stays settled with its value.
pub settle-settled :
    (id j : String) (r r' : Result Value) (d : Dict Future)
    → lookup id d ≡ some (settled r)
    → lookup id (settle j r' d) ≡ some (settled r)
unfolding settle
settle-settled id j r r' d h = elim (Option-cases (lookup j d)) [
  | inl absent ↦ rw (absent, settle) h
  | inr (waiting, e) ↦
      rw (e, settle, lookup-insert j id (settled r') d)
        (elim (Bool-cases (j == id)) [
          | inl same ↦ absurd (cc (e, h, (eq_iff j id).0 same))
          | inr apart ↦ rw apart h
        ])
  | inr (settled _, e) ↦ rw (e, settle) h
]

-- The settled futures of a table are in the other with the same values.
abbrev pub Stays : Dict Future → Dict Future → Type 0
Stays d d' =
    (id : String) (r : Result Value)
    → lookup id d ≡ some (settled r)
    → lookup id d' ≡ some (settled r)

Stays-insert :
    (j : String) (f : Future) (d : Dict Future) → lookup j d ≡ none → Stays d (insert j f d)
Stays-insert j f d free id r h = rw (lookup-insert j id f d) (elim (Bool-cases (j == id)) [
  | inl same ↦ absurd (cc (free, h, (eq_iff j id).0 same))
  | inr apart ↦ rw apart h
])

Stays-map : (r' : Result Value) (d : Dict Future) → Stays d (map_values (settle_one r') d)
Stays-map r' d id r h = lookup-map_values (settle_one r') id d ∙ ap (map_option (settle_one r')) h

-- Both tables keep their settled futures.
pub record Kept {P : Type 0} (s t : HostRuntime P) : Type 0 where
  pub executions : Stays s.pending_executions t.pending_executions
  pub requests : Stays s.pending_requests t.pending_requests

pub kept : {P : Type 0} (s : HostRuntime P) → Kept s s
kept s = record { executions = λ id r h. h; requests = λ id r h. h }

pub Kept-tables :
    {P : Type 0} {s t u : HostRuntime P}
    → Kept s t
    → t.pending_executions ≡ u.pending_executions
    → t.pending_requests ≡ u.pending_requests
    → Kept s u
Kept-tables {s = s} h e r = record {
  executions = subst (Stays s.pending_executions) e h.executions;
  requests = subst (Stays s.pending_requests) r h.requests;
}

module _ {P : Type 0} (send : ℕ → Object → Call P Unit) where
  pub send_to-tables :
      (t : Option ℕ) (message : Object) (s : HostRuntime P)
      → let s' = (send_to send t message s).1 in
        (s.pending_executions ≡ s'.pending_executions) × (s.pending_requests ≡ s'.pending_requests)
  send_to-tables none message s = (refl, refl)
  send_to-tables (some adapter) message s = (refl, refl)

  pub ask_executor-Kept :
      (id : String) (enter : HostRuntime P → HostRuntime P) (message : HostRuntime P → Object)
      (s : HostRuntime P)
      → Kept s (enter s)
      → Kept s (ask_executor send id enter message s).1
  unfolding send_executor_message
  ask_executor-Kept id enter message s h =
      let same = send_to-tables (enter s).executor_transport (message s) (enter s) in
      elim (Result-cases (send_to send (enter s).executor_transport (message s) (enter s)).0) [
        | inl (a, e) ↦ rw e (Kept-tables h same.0 same.1)
        | inr (x, e) ↦ rw e (Kept-tables h same.0 same.1)
      ]

  pub unless_attached-Kept :
      (t : Option ℕ) (alone : Value) (m : Call (HostRuntime P) Begun) (s : HostRuntime P)
      → Kept s (m s).1
      → Kept s (unless_attached t alone m s).1
  unless_attached-Kept none alone m s h = kept s
  unless_attached-Kept (some _) alone m s h = h

  pub enter_execution-Kept :
      (id : String) (s : HostRuntime P)
      → lookup id s.pending_executions ≡ none
      → Kept s (enter_execution id s)
  enter_execution-Kept id s free = record {
    executions = Stays-insert id waiting s.pending_executions free;
    requests = λ _ _ h. h;
  }

  pub enter_request-Kept :
      (id : String) (s : HostRuntime P)
      → lookup id s.pending_requests ≡ none
      → Kept s (enter_request id s)
  enter_request-Kept id s free = record {
    executions = λ _ _ h. h;
    requests = Stays-insert id waiting s.pending_requests free;
  }

pub detach-Kept :
    {P : Type 0} (adapter : Option ℕ) (s : HostRuntime P)
    → Kept s (detach_executor_transport adapter s)
unfolding detach_executor_transport fail_pending_executor_operations
detach-Kept adapter s = elim (Bool-cases (detaches adapter s.executor_transport)) [
  | inl ours ↦ rw ours (record {
    executions = Stays-map (raised disconnected) s.pending_executions;
    requests = Stays-map (raised disconnected) s.pending_requests;
  })
  | inr others ↦ rw others (kept s)
]

module _ {P : Type 0} (python : Interpreter) (models : Models) (mid : String)
    (message : Object) where
  pub answer_request-Kept :
      (s : HostRuntime P) → Kept s (answer_request python models mid message s).1
  unfolding answer_request
  answer_request-Kept s =
      elim (Option-cases (lookup (request_id python message) s.pending_requests)) [
        | inl absent ↦ rw (absent, answer_request) (kept s)
        | inr (settled _, e) ↦ rw (e, answer_request) (kept s)
        | inr (waiting, e) ↦ elim (Result-cases (executor_answer python (payload message))) [
          | inl (r, e') ↦
              rw (e, e', answer_request)
                (record {
                  executions = λ _ _ h. h;
                  requests = λ id r' h.
                      settle-settled id (request_id python message) r' r s.pending_requests h;
                })
          | inr (x, e') ↦ rw (e, e', answer_request) (kept s)
        ]
      ]

  pub answer_then-Kept :
      {A : Type 0} (check : Object → Checked A) (effect : A → HostRuntime P → HostRuntime P)
      (s : HostRuntime P)
      → ((a : A) (s' : HostRuntime P) → Kept s' (effect a s'))
      → Kept s (answer_then python models mid message check effect s).1
  answer_then-Kept check effect s h =
      elim (Result-cases
        (on_tep python (handle_message_or_error (tep_callbacks python) mid models python message)
          s).0) [
            | inr (x, e) ↦ rw e (record { executions = λ _ _ h'. h'; requests = λ _ _ h'. h' })
            | inl (a, e) ↦ elim (Option-cases (validate check (payload message))) [
              | inl invalid ↦
                  rw (e, invalid) (record { executions = λ _ _ h'. h'; requests = λ _ _ h'. h' })
              | inr (p, given) ↦
                  rw (e, given)
                    (let k =
                        h p
                          (on_tep python
                            (handle_message_or_error (tep_callbacks python) mid models python
                              message)
                            s).1 in
                      record { executions = k.executions; requests = k.requests })
            ]
          ]
