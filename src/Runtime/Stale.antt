-- ===== src/Runtime/Stale.antt =====
-- The snapshot message of a bind: if it is refused, the mirror stays stale.
use naia_relay.Prelude.{◌≡◌, refl, sym, subst, inl, inr, ℕ, String, true, some, arith, Bool-cases}
use naia_relay.Json.{Value, Object, str, get}
use naia_relay.Errors.{Exn, Interpreter}
use naia_relay.Call.{Result, ok, raised, Result-cases}
use naia_relay.Pydantic.{Checked, valid, invalid, map_checked}
use naia_relay.Rlp.Models.{Models, RlpEnvelope, SnapshotPayload, load, snapshot}
use naia_relay.Rlp.Dispatch.{Ids, deliver, dispatch}
use naia_relay.Rlp.Dispatch as Rlp_dispatch
use naia_relay.Rlp.Handler.{check_envelope, validate_message}
use naia_relay.Runtime.Base.{is_timeout, record_timeout, record_validation_failure}
use naia_relay.Runtime.Serve.{with_request_timeout}
use naia_relay.Runtime.Client.{Link, rlp_call, on_rlp, no_callbacks}
use naia_relay.Runtime.Bind.{snapshot_message}
use naia_relay.Runtime.Silent.{behind_start}

-- pydantic reads the type of a message from its `message_type`.
abbrev pub KeepsType : Models → Type 0
KeepsType models =
    (message : Object) (e : RlpEnvelope) (kind : String)
    → models.envelope message ≡ valid e
    → get "message_type" message ≡ some (str kind)
    → e.message_type ≡ kind

-- A call that raises leaves the registry stale, if it was.
abbrev pub StaysStale : {P A : Type 0} → Result A × Link P → Type 0
StaysStale (ok _, s) = Unit
StaysStale (raised _, s) = s.registry.stale ≡ true

pub raised_stale :
    {P A : Type 0} (p : Result A × Link P) (x : Exn)
    → p.0 ≡ raised x
    → StaysStale p
    → p.1.registry.stale ≡ true
raised_stale p x e h = subst (λ r. StaysStale (r, p.1)) e h

validated :
    (models : Models) (message : Object) (e : RlpEnvelope)
    → validate_message models message ≡ ok e
    → models.envelope message ≡ valid e
unfolding validate_message check_envelope
validated models message e h = ground arith

load_snapshot_type :
    (models : Models) (payload : Object) (kind : String)
    → kind ≡ "tool_snapshot"
    → load models kind payload ≡ some (map_checked snapshot (models.snapshot payload))
unfolding load
load_snapshot_type models payload kind h = rw h refl

module _ {P : Type 0} (python : Interpreter) (models : Models) (ids : Ids) where
  delivered :
      (e : RlpEnvelope) (c : Checked SnapshotPayload) (s : Link P)
      → s.registry.stale ≡ true
      → StaysStale (on_rlp (deliver no_callbacks python ids e (some (map_checked snapshot c))) s)
  unfolding dispatch
  delivered e (valid p) s h = tt
  delivered e (invalid x) s h = h

  -- A snapshot is refused before the registry changes.
  pub snapshot_call :
      KeepsType models
      → (host_session host_relay : String) (details : Value) (s : Link P) → s.registry.stale ≡ true
      → StaysStale (rlp_call python models ids (snapshot_message host_session host_relay details) s)
  unfolding Rlp_dispatch.handle_message
  snapshot_call types host_session host_relay details s h =
      elim (Result-cases
        (validate_message models (snapshot_message host_session host_relay details))) [
          | inr (x, e) ↦ rw e h
          | inl (envelope, e) ↦ rw e (
              subst (λ c. StaysStale (on_rlp (deliver no_callbacks python ids envelope c) s))
                (sym (
                  load_snapshot_type models envelope.payload envelope.message_type (
                    types (snapshot_message host_session host_relay details) envelope
                      "tool_snapshot"
                      (validated models (snapshot_message host_session host_relay details) envelope
                        e)
                      (unfold snapshot_message get in refl))))
                (delivered envelope (models.snapshot envelope.payload) s h))
        ]

  -- The snapshot message of a bind, however its handling fails.
  pub behind-StaysStale :
      (now : ℕ) (message : Object) (s : Link P)
      → StaysStale (rlp_call python models ids message s)
      → StaysStale (behind_start python models ids now message s)
  unfolding with_request_timeout record_timeout record_validation_failure
  behind-StaysStale now message s h = elim (Result-cases (rlp_call python models ids message s).0) [
    | inl (a, e) ↦ rw e tt
    | inr (x, e) ↦
        let stale = raised_stale (rlp_call python models ids message s) x e h in
        elim (Bool-cases (is_timeout x)) [
          | inl late ↦ rw (e, late) stale
          | inr other ↦ rw (e, other) stale
        ]
  ]
