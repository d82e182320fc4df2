-- ===== src/Runtime/Freshness.antt =====
-- A bind leaves the mirror fresh or stale.
use naia_relay.Prelude.{
  ◌≡◌, refl, ap, ◌∙◌, inl, inr, ℕ, zero, suc, ◌+◌, String, true, Option, none, some, Bool-cases,
  leb,
}
use naia_relay.Json.{Value, Object, is_text}
use naia_relay.Errors.{ProtocolError, Interpreter}
use naia_relay.Call.{Call, Result, ok, raised, Result-cases}
use naia_relay.Rlp.Models.{Models}
use naia_relay.Rlp.Dispatch.{Ids}
use naia_relay.Registry.Store.{mark_stale}
use naia_relay.Runtime.Base.{is_timeout, with_timeout, record_timeout}
use naia_relay.Runtime.Client.{
  Requester, Link, link_holds, count, mark_link_stale, on_peer, handle_rlp_message,
}
use naia_relay.Runtime.Bind.{
  Surroundings, ask_host, as_protocol_error, after_request, load_snapshot, status_of, details_of,
  attempts, bind_failed, bind_via_requester, snapshot_message, bind_message,
}
use naia_relay.Runtime.Silent.{handle_rlp-cases}
use naia_relay.Runtime.Stale.{KeepsType, StaysStale, raised_stale, snapshot_call, behind-StaysStale}

-- A bind returns a response that accepts it, or raises and leaves the registry stale.
abbrev pub Settled : {P : Type 0} → (Object → Result Value) → Result Object × Link P → Type 0
Settled status_of (ok response, s) =
    (status : Value) × (status_of response ≡ ok status) × (is_text "ok" (some status) ≡ true)
Settled status_of (raised _, s) = s.registry.stale ≡ true

module _ {P : Type 0} where
  timeout-registry :
      {A : Type 0} (f : Option (P → P)) (label : String) (limit : ℕ) (m : Call P A) (s : Link P)
      → (with_timeout link_holds.update
          (elim f [ none ↦ none | some g ↦ some (λ s. record s { peer = g s.peer }) ])
          label
          limit
          (on_peer m)
          s).1.registry
        ≡ s.registry
  unfolding record_timeout
  timeout-registry (some g) label limit m s = refl
  timeout-registry none label limit m s = elim (Result-cases (m s.peer).0) [
    | inl (a, e) ↦ rw e refl
    | inr (x, e) ↦ elim (Bool-cases (is_timeout x)) [
      | inl late ↦ rw (e, late) refl
      | inr other ↦ rw (e, other) refl
    ]
  ]

module _ {P : Type 0} (python : Interpreter) (models : Models) (ids : Ids) (around : Surroundings P)
    (requester : Requester P) (host_session host_relay : String) where
  abbrev answered : Object → Result Value
  answered = status_of python models ids around requester host_session host_relay

  ask_host-registry :
      (attempt : ℕ) (s : Link P)
      → (ask_host python models ids around requester host_session host_relay attempt s).1.registry
        ≡ s.registry
  ask_host-registry attempt s =
      timeout-registry (around.expiry attempt) "Relay-link bind"
        s.base.limits.connection_timeout_seconds
        (requester (bind_message host_session s.base.relay_id)) s

  module _ (undisturbed : around.local_expiry ≡ none) (types : KeepsType models) where
    handle-StaysStale :
        (details : Value) (s : Link P)
        → s.registry.stale ≡ true
        → StaysStale (
            handle_rlp_message python models ids around.now none
              (snapshot_message host_session host_relay details)
              s)
    handle-StaysStale details s h =
        handle_rlp-cases python models ids around.now
          (snapshot_message host_session host_relay details) StaysStale s (λ e. h)
          (λ b same.
            behind-StaysStale python models ids around.now
              (snapshot_message host_session host_relay details) (record s { base = b })
              (snapshot_call python models ids types host_session host_relay details
                (record s { base = b }) h))

    load_snapshot-Settled :
        (response : Object) (status : Value) (s : Link P)
        → answered response ≡ ok status
        → is_text "ok" (some status) ≡ true
        → s.registry.stale ≡ true
        → Settled answered
            (load_snapshot python models ids around requester host_session host_relay response s)
    load_snapshot-Settled response status s told accepted h =
        elim (Result-cases
          (details_of python models ids around requester host_session host_relay response)) [
            | inr (x, e) ↦ rw e h
            | inl (details, e) ↦
                rw (e, undisturbed)
                  (elim (Result-cases
                    (handle_rlp_message python models ids around.now none
                      (snapshot_message host_session host_relay details) s).0) [
                        | inl (a, e') ↦ rw e' (status, told, accepted)
                        | inr (x, e') ↦ rw e' (
                            raised_stale
                              (handle_rlp_message python models ids around.now none
                                (snapshot_message host_session host_relay details) s)
                              x e' (handle-StaysStale details s h))
                      ])
          ]

    after_request-Settled :
        (limit attempt : ℕ) (retry : Option ProtocolError → Call (Link P) Object)
        → ((last : Option ProtocolError) (s : Link P)
            → s.registry.stale ≡ true
            → Settled answered (retry last s))
        → (r : Result Object) (s : Link P) → s.registry.stale ≡ true
        → Settled answered (
            after_request python models ids around requester host_session host_relay limit attempt
              retry r s)
    unfolding mark_link_stale mark_stale
    after_request-Settled limit attempt retry h (raised e) s stale =
        elim (Bool-cases (leb limit attempt)) [
          | inl last ↦ rw last refl
          | inr more ↦ rw more (h (some (as_protocol_error python e)) (mark_link_stale s) refl)
        ]
    after_request-Settled limit attempt retry h (ok response) s stale =
        elim (Result-cases (answered response)) [
          | inr (x, e) ↦ rw e stale
          | inl (status, e) ↦ elim (Bool-cases (is_text "ok" (some status))) [
            | inl accepted ↦
                rw (e, accepted) (load_snapshot-Settled response status s e accepted stale)
            | inr refused ↦ rw (e, refused) (h (some bind_failed) s stale)
          ]
        ]

    attempts-Settled :
        (limit left attempt : ℕ) (last : Option ProtocolError) (s : Link P)
        → s.registry.stale ≡ true
        → Settled answered (
            attempts python models ids around requester host_session host_relay limit left attempt
              last s)
    unfolding attempts
    attempts-Settled limit zero attempt last s h = h
    attempts-Settled limit (suc left) attempt last s h =
        let s' =
          count (λ stats. record stats { reconnect_attempts = stats.reconnect_attempts + 1 }) s in
        let r = ask_host python models ids around requester host_session host_relay attempt s' in
        after_request-Settled limit attempt
          (attempts python models ids around requester host_session host_relay limit left
            (suc attempt))
          (attempts-Settled limit left (suc attempt)) r.0 r.1
          (ap (λ registry. registry.stale) (ask_host-registry attempt s') ∙ h)

    -- However often the host has to be asked and whatever it answers, a bind either returns a
    -- response whose status is ok, or raises and leaves the mirror stale, if no deadline cuts off
    -- the loading of the snapshot and pydantic reads a message's type from its `message_type`.
    pub bind_via_requester-Settled :
        (s : Link P)
        → Settled answered
            (bind_via_requester python models ids around requester host_session host_relay s)
    unfolding bind_via_requester mark_stale
    bind_via_requester-Settled s =
        attempts-Settled s.base.limits.reconnect_attempts (suc s.base.limits.reconnect_attempts) 0
          none
          (record s {
            upstream_requester = some requester;
            rlp_handler = record s.rlp_handler {
              host_relay_id = host_relay;
              relay_session_id = host_session;
            };
            registry = mark_stale s.registry;
          })
          refl
