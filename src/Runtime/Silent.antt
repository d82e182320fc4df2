-- ===== src/Runtime/Silent.antt =====
-- Which calls of a client leave its count of bind attempts as it is, and the cases of
-- handle_rlp_message.
use naia_relay.Prelude.{
  ◌≡◌, refl, ap, ◌∙◌, inl, inr, ℕ, String, Bool, true, false, Option, none, some, Bool-cases,
  if◌then◌else◌,
}
use naia_relay.Json.{Object, is_text, get}
use naia_relay.Errors.{Exn, Interpreter}
use naia_relay.Call.{Call, Result, raised, Result-cases, ◌>>◌, modify}
use naia_relay.Rlp.Models.{Models}
use naia_relay.Rlp.Dispatch.{Ids}
use naia_relay.Runtime.Base.{
  BaseRuntime, is_timeout, with_timeout, ensure_started, record_timeout, record_heartbeat,
  record_validation_failure,
}
use naia_relay.Runtime.Serve.{with_request_timeout}
use naia_relay.Runtime.Guard.{Ensured, up, down, ensure_started-Ensured}
use naia_relay.Runtime.Serve as Serve
use naia_relay.Runtime.Client.{Link, link_holds, rlp_call, handle_rlp_message}

module _ {P : Type 0} where
  abbrev pub asked : Link P → ℕ
  asked s = s.base.stats.reconnect_attempts

  -- A call that leaves the count of bind attempts as it is.
  abbrev pub Silent : {A : Type 0} → Call (Link P) A → Type 0
  Silent m = (s : Link P) → asked (m s).1 ≡ asked s

  pub timeout-Silent :
      {A : Type 0} (f : Option (P → P)) (label : String) (limit : ℕ) (m : Call (Link P) A)
      → Silent m
      → Silent (
          with_timeout link_holds.update
            (elim f [ none ↦ none | some g ↦ some (λ s. record s { peer = g s.peer }) ])
            label
            limit
            m)
  unfolding record_timeout
  timeout-Silent (some g) label limit m h s = refl
  timeout-Silent none label limit m h s = elim (Result-cases (m s).0) [
    | inl (a, e) ↦ rw e (h s)
    | inr (x, e) ↦ elim (Bool-cases (is_timeout x)) [
      | inl late ↦ rw (e, late) (h s)
      | inr other ↦ rw (e, other) (h s)
    ]
  ]

  pub failures-Silent :
      {A : Type 0} (m : Call (Link P) A) → Silent m → Silent (Serve.counting_failures link_holds m)
  unfolding record_validation_failure
  failures-Silent m h s = elim (Result-cases (m s).0) [
    | inl (a, e) ↦ rw e (h s)
    | inr (x, e) ↦ rw e (h s)
  ]

module _ {P : Type 0} (python : Interpreter) (models : Models) (ids : Ids) (now : ℕ)
    (message : Object) where
  abbrev pub behind_start : Call (Link P) Object
  behind_start =
      Serve.counting_failures link_holds
        (with_request_timeout link_holds none (rlp_call python models ids message))

  -- handle_rlp_message with no deadline: it is refused, or it is served after a heartbeat at most.
  pub handle_rlp-cases :
      (R : Result Object × Link P → Type 0) (s : Link P)
      → ((e : Exn) → R (raised e, s))
      → ((b : BaseRuntime) → b.stats ≡ s.base.stats → R (behind_start (record s { base = b })))
      → R (handle_rlp_message python models ids now none message s)
  unfolding handle_rlp_message Serve.handle_message record_heartbeat
  handle_rlp-cases R s refused served =
      begun (ensure_started s.base) (ensure_started-Ensured s.base)
        (is_text "heartbeat" (get "message_type" message))
    where
      begun :
          (r : Result Unit × BaseRuntime)
          → Ensured s.base r
          → (beat : Bool)
          → R (
              ((λ s'. (r.0, link_holds.update (λ _. r.1) s'))
                  >> modify (if beat then link_holds.update (record_heartbeat now) else λ s'. s')
                  >> behind_start)
                s)
      begun _ up true = served (record_heartbeat now s.base) refl
      begun _ up false = served s.base refl
      begun _ (down {e}) beat = refused e

  pub handle_rlp-Silent : Silent {P = P} (handle_rlp_message python models ids now none message)
  unfolding with_request_timeout
  handle_rlp-Silent s =
      handle_rlp-cases (λ p. asked p.1 ≡ asked s) s (λ e. refl)
        (λ b same.
          failures-Silent
            (with_request_timeout link_holds none (rlp_call python models ids message))
            (λ s'.
              timeout-Silent none "Request" s'.base.limits.request_timeout_seconds
                (rlp_call python models ids message) (λ s''. refl) s')
            (record s { base = b })
          ∙ ap (λ stats. stats.reconnect_attempts) same)
