-- ===== src/Runtime/Retries.antt =====
-- How often a bind asks the host.
use naia_relay.Prelude.{
  ◌≡◌, refl, ℕ, zero, suc, ◌+◌, ◌≤◌, ◌<◌, String, Option, none, some, inl, inr, arith, Bool-cases,
  leb,
}
use naia_relay.Json.{Object, is_text}
use naia_relay.Errors.{ProtocolError, Interpreter}
use naia_relay.Call.{Call, Result, ok, raised, Result-cases, modify, ◌>>=◌, ◌>>◌}
use naia_relay.Rlp.Models.{Models}
use naia_relay.Rlp.Dispatch.{Ids}
use naia_relay.Registry.Store.{mark_stale}
use naia_relay.Runtime.Client.{Requester, Link, count, mark_link_stale, on_peer, handle_rlp_message}
use naia_relay.Runtime.Bind.{
  Surroundings, tried, ask_host, as_protocol_error, after_request, load_snapshot, status_of,
  details_of, attempts, bind_via_requester, snapshot_message, bind_message,
}
use naia_relay.Runtime.Silent.{asked, Silent, timeout-Silent, handle_rlp-Silent}

-- A call that asks the host at most `k` times.
abbrev AtMost : {P : Type 0} → ℕ → Call (Link P) Object → Type 0
AtMost k m = (s : Link _) → (asked s ≤ asked (m s).1) × (asked (m s).1 ≤ asked s + k)

module _ {P : Type 0} (python : Interpreter) (models : Models) (ids : Ids) (around : Surroundings P)
    (requester : Requester P) (host_session host_relay : String) where
  ask_host-Silent :
      (attempt : ℕ)
      → Silent (ask_host python models ids around requester host_session host_relay attempt)
  ask_host-Silent attempt s =
      timeout-Silent (around.expiry attempt) "Relay-link bind"
        s.base.limits.connection_timeout_seconds
        (on_peer (requester (bind_message host_session s.base.relay_id))) (λ s'. refl) s

  module _ (undisturbed : around.local_expiry ≡ none) where
    load_snapshot-Silent :
        (response : Object)
        → Silent (load_snapshot python models ids around requester host_session host_relay response)
    load_snapshot-Silent response s =
        elim (Result-cases
          (details_of python models ids around requester host_session host_relay response)) [
            | inr (x, e) ↦ rw e refl
            | inl (details, e) ↦
                rw (e, undisturbed)
                  (elim (Result-cases
                    (handle_rlp_message python models ids around.now none
                      (snapshot_message host_session host_relay details) s).0) [
                        | inl (a, e') ↦ rw e' (
                            handle_rlp-Silent python models ids around.now
                              (snapshot_message host_session host_relay details) s)
                        | inr (x, e') ↦ rw e' (
                            handle_rlp-Silent python models ids around.now
                              (snapshot_message host_session host_relay details) s)
                      ])
          ]

    after_request-AtMost :
        (limit attempt k : ℕ) (retry : Option ProtocolError → Call (Link P) Object)
        → ((last : Option ProtocolError) → AtMost k (retry last))
        → (r : Result Object)
        → AtMost k (
            after_request python models ids around requester host_session host_relay limit attempt
              retry r)
    unfolding mark_link_stale
    after_request-AtMost limit attempt k retry h (raised e) s =
        elim (Bool-cases (leb limit attempt)) [
          | inl last ↦ rw last (ground arith)
          | inr more ↦ rw more (h (some (as_protocol_error python e)) (mark_link_stale s))
        ]
    after_request-AtMost limit attempt k retry h (ok response) s =
        elim (Result-cases
          (status_of python models ids around requester host_session host_relay response)) [
            | inr (x, e) ↦ rw e (ground arith)
            | inl (status, e) ↦ elim (Bool-cases (is_text "ok" (some status))) [
              | inl accepted ↦
                  rw (e, accepted)
                    (let same = load_snapshot-Silent response s in (grind arith, grind arith))
              | inr refused ↦ rw (e, refused) (h (some _) s)
            ]
          ]

    -- One round, before retries that ask at most `k` times.
    round-AtMost :
        (limit attempt k : ℕ) (retry : Option ProtocolError → Call (Link P) Object)
        → ((last : Option ProtocolError) → AtMost k (retry last))
        → (s : Link P)
        → let after =
            ((modify (
                  count
                    (λ stats. record stats { reconnect_attempts = stats.reconnect_attempts + 1 }))
                >> tried
                    (ask_host python models ids around requester host_session host_relay attempt)
                >>= after_request python models ids around requester host_session host_relay limit
                    attempt retry)
              s).1 in
          (asked s < asked after) × (asked after ≤ asked s + suc k)
    round-AtMost limit attempt k retry h s =
        let s' =
          count (λ stats. record stats { reconnect_attempts = stats.reconnect_attempts + 1 }) s in
        let r = ask_host python models ids around requester host_session host_relay attempt s' in
        let same = ask_host-Silent attempt s' in
        let bound = after_request-AtMost limit attempt k retry h r.0 r.1 in
        (grind (arith, same, bound), grind (arith, same, bound))

    attempts-AtMost :
        (limit left attempt : ℕ) (last : Option ProtocolError)
        → AtMost left (
            attempts python models ids around requester host_session host_relay limit left attempt
              last)
    unfolding attempts
    attempts-AtMost limit zero attempt last s = ground arith
    attempts-AtMost limit (suc left) attempt last s =
        let bound =
          round-AtMost limit attempt left
            (attempts python models ids around requester host_session host_relay limit left
              (suc attempt))
            (attempts-AtMost limit left (suc attempt)) s in
        (grind (arith, bound), bound.1)

-- A bind counts at least one attempt, and no more than the configured number of reconnects and the
-- first attempt, whatever the host answers, if no deadline cuts off the loading of the snapshot.
pub bind_via_requester-attempts :
    {P : Type 0} (python : Interpreter) (models : Models) (ids : Ids) (around : Surroundings P)
    (requester : Requester P) (host_session host_relay : String)
    → around.local_expiry ≡ none
    → (s : Link P)
    → let (r, s') =
        bind_via_requester python models ids around requester host_session host_relay s in
      (s.base.stats.reconnect_attempts < s'.base.stats.reconnect_attempts)
      × (s'.base.stats.reconnect_attempts
          ≤ s.base.stats.reconnect_attempts + (s.base.limits.reconnect_attempts + 1))
unfolding bind_via_requester attempts
bind_via_requester-attempts python models ids around requester host_session host_relay undisturbed
      s =
    let bound =
      round-AtMost python models ids around requester host_session host_relay undisturbed
        s.base.limits.reconnect_attempts 0 s.base.limits.reconnect_attempts
        (attempts python models ids around requester host_session host_relay
          s.base.limits.reconnect_attempts s.base.limits.reconnect_attempts 1)
        (attempts-AtMost python models ids around requester host_session host_relay undisturbed
          s.base.limits.reconnect_attempts s.base.limits.reconnect_attempts 1)
        (record s {
          upstream_requester = some requester;
          rlp_handler = record s.rlp_handler {
            host_relay_id = host_relay;
            relay_session_id = host_session;
          };
          registry = mark_stale s.registry;
        }) in
    (bound.0, grind (arith, bound))
