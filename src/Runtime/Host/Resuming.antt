-- ===== src/Runtime/Host/Resuming.antt =====
-- The calls that wait on a future, in either table, and what a resumed one leaves behind.
use naia_relay.Prelude.{
  ◌≡◌, refl, sym, ap, ◌∙◌, subst, ◌⊎◌, inl, inr, String, Bool, true, false, if◌then◌else◌, Option,
  none, some, Bool-cases, ◌==◌, eq_iff,
}
use naia_relay.Prelude.Dict.{Dict, lookup, erase, lookup-erase}
use naia_relay.Json.{Value}
use naia_relay.Call.{Result, ok, raised}
use naia_relay.Runtime.Base.{is_timeout, timed_out, record_timeout}
use naia_relay.Runtime.Serve.{with_request_timeout}
use naia_relay.Runtime.Host.{HostRuntime, Future, waiting, settled}
use naia_relay.Runtime.Host.Callbacks.{await_execution, await_request, resume, in_time}
use naia_relay.Runtime.Host.Kept.{Kept}

-- A call that resumes has left its entry: what is left of the state it resumed from.
abbrev Left :
    {P : Type 0}
    → (HostRuntime P → HostRuntime P)
    → HostRuntime P
    → Option (Result Value × HostRuntime P)
    → Type 0
Left pop s none = Unit
Left pop s (some (r, t)) =
    (b : HostRuntime _) × (t ≡ pop b)
    × (b.pending_executions ≡ s.pending_executions)
    × (b.pending_requests ≡ s.pending_requests)

module _ {P : Type 0} (late : Bool) (pop : HostRuntime P → HostRuntime P) where
  in_time-Left : (f : Future) (s : HostRuntime P) → Left pop s (in_time pop f s)
  unfolding with_request_timeout record_timeout
  in_time-Left waiting s = tt
  in_time-Left (settled (ok v)) s = (s, refl, refl, refl)
  in_time-Left (settled (raised x)) s = elim (Bool-cases (is_timeout x)) [
    | inl slow ↦ rw slow (_, refl, refl, refl)
    | inr early ↦ rw early (_, refl, refl, refl)
  ]

  resume-Left : (f : Option Future) (s : HostRuntime P) → Left pop s (resume late pop f s)
  unfolding with_request_timeout record_timeout
  resume-Left none s = tt
  resume-Left (some f) s = elim (Bool-cases late) [
    | inl cut ↦ rw cut (_, refl, refl, refl)
    | inr not_yet ↦ rw not_yet (in_time-Left f s)
  ]

-- The two tables of futures.
pub data Table : Type 0 where
  executions requests : Table

module _ {P : Type 0} where
  abbrev pub pending : Table → HostRuntime P → Dict Future
  pending executions s = s.pending_executions
  pending requests s = s.pending_requests

  abbrev pub leave : Table → String → HostRuntime P → HostRuntime P
  leave executions id s = record s { pending_executions = erase id s.pending_executions }
  leave requests id s = record s { pending_requests = erase id s.pending_requests }

  abbrev pub await : Table → Bool → String → HostRuntime P → Option (Result Value × HostRuntime P)
  await executions = await_execution
  await requests = await_request

  pub await_resumes :
      (table : Table) (late : Bool) (id : String) (s : HostRuntime P)
      → await table late id s ≡ resume late (leave table id) (lookup id (pending table s)) s
  unfolding await_execution await_request
  await_resumes executions late id s = refl
  await_resumes requests late id s = refl

  -- What the call that waits on a settled future gets, whether the deadline cuts it off or not: the
  -- outcome, in which a timeout is the request's, and the request's timeout.
  abbrev pub outcome : Bool → Result Value → HostRuntime P → Result Value
  outcome true r s = raised (timed_out "Request" s.base.limits.request_timeout_seconds)
  outcome false (ok v) s = ok v
  outcome false (raised x) s =
      if is_timeout x
      then raised (timed_out "Request" s.base.limits.request_timeout_seconds)
      else raised x

  resume-outcome :
      (late : Bool) (pop : HostRuntime P → HostRuntime P) (r v : Result Value) (s t : HostRuntime P)
      → resume late pop (some (settled r)) s ≡ some (v, t)
      → v ≡ outcome late r s
  unfolding with_request_timeout record_timeout
  resume-outcome true pop r v s t e = sym (ap (λ o. elim o [ none ↦ v | some x ↦ x.0 ]) e)
  resume-outcome false pop (ok a) v s t e = sym (ap (λ o. elim o [ none ↦ v | some x ↦ x.0 ]) e)
  resume-outcome false pop (raised x) v s t e = elim (Bool-cases (is_timeout x)) [
    | inl slow ↦ rw slow (sym (ap (λ o. elim o [ none ↦ v | some x ↦ x.0 ]) (rw slow at e)))
    | inr early ↦ rw early (sym (ap (λ o. elim o [ none ↦ v | some x ↦ x.0 ]) (rw early at e)))
  ]

  await-outcome :
      (table : Table) (late : Bool) (id : String) (r v : Result Value) (s t : HostRuntime P)
      → lookup id (pending table s) ≡ some (settled r)
      → await table late id s ≡ some (v, t)
      → v ≡ outcome late r s
  await-outcome table late id r v s t h e =
      resume-outcome late (leave table id) r v s t (
        ap (λ f. resume late (leave table id) f s) (sym h)
        ∙ sym (await_resumes table late id s)
        ∙ e)

  await-Left :
      (table : Table) (late : Bool) (id : String) (r : Result Value) (s t : HostRuntime P)
      → await table late id s ≡ some (r, t)
      → Left (leave table id) s (some (r, t))
  await-Left table late id r s t e =
      subst (Left (leave table id) s) (sym (await_resumes table late id s) ∙ e)
        (resume-Left late (leave table id) (lookup id (pending table s)) s)

  -- Leaving an entry takes no other away.
  leave-pending :
      (table from : Table) (id j : String) (s b : HostRuntime P)
      → b.pending_executions ≡ s.pending_executions
      → b.pending_requests ≡ s.pending_requests
      → ((table ≡ from) × (j ≡ id))
        ⊎ (lookup id (pending table (leave from j b)) ≡ lookup id (pending table s))
  leave-pending executions requests id j s b e r = inr (ap (lookup id) e)
  leave-pending requests executions id j s b e r = inr (ap (lookup id) r)
  leave-pending executions executions id j s b e r = elim (Bool-cases (j == id)) [
    | inl same ↦ inl (refl, (eq_iff j id).0 same)
    | inr apart ↦ inr (rw (lookup-erase j id b.pending_executions, apart) (ap (lookup id) e))
  ]
  leave-pending requests requests id j s b e r = elim (Bool-cases (j == id)) [
    | inl same ↦ inl (refl, (eq_iff j id).0 same)
    | inr apart ↦ inr (rw (lookup-erase j id b.pending_requests, apart) (ap (lookup id) r))
  ]

  -- After a call has resumed, the other settled futures are there.
  pub others_stay :
      (table from : Table) (late : Bool) (id j : String) (r v : Result Value) (s t : HostRuntime P)
      → lookup id (pending table s) ≡ some (settled r)
      → await from late j s ≡ some (v, t)
      → (lookup id (pending table t) ≡ some (settled r))
        ⊎ (await table late id s ≡ some (outcome late r s, t))
  others_stay table from late id j r v s t h e =
      let (b, at, e', r') = await-Left from late j v s t e in
      elim (leave-pending table from id j s b e' r') [
        | inr there ↦ inl (ap (λ t. lookup id (pending table t)) at ∙ there ∙ h)
        | inl (same, here) ↦
            let ours =
              ap (λ x. await x late id s) same ∙ ap (λ x. await from late x s) (sym here) ∙ e in
            inr (ours ∙ ap (λ v. some (v, t)) (await-outcome table late id r v s t h ours))
      ]

  pub Kept-pending :
      (table : Table) (id : String) (r : Result Value) (s t : HostRuntime P)
      → Kept s t
      → lookup id (pending table s) ≡ some (settled r)
      → lookup id (pending table t) ≡ some (settled r)
  Kept-pending executions id r s t k h = k.executions id r h
  Kept-pending requests id r s t k h = k.requests id r h
