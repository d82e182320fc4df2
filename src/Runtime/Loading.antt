-- ===== src/Runtime/Loading.antt =====
-- What a started client does with the snapshot that answers its bind.
use naia_relay.Runtime.Answering.{Reads, served, handled, snapshot_quiet}
use naia_relay.Prelude.{◌+◌, ◌≡◌, refl, ap, ◌∙◌, ℕ, suc, String, true, false, none, some}
use naia_relay.Json.{Value, Object, object, get, str, dict, empty}
use naia_relay.Errors.{Interpreter}
use naia_relay.Call.{ok}
use naia_relay.Registry.Store.{RegistryStore}
use naia_relay.Registry.Invariant.{IsValid}
use naia_relay.Rlp.Models.{Message, Models, RlpEnvelope, BindSessionPayload, SnapshotPayload, load}
use naia_relay.Rlp.Models as Payload
use naia_relay.Rlp.Handler.{Handling, identity}
use naia_relay.Rlp.Dispatch.{Ids, dispatch}
use naia_relay.Rlp.Response.{Identity, rlp_reply, ok_response}
use naia_relay.Tep.Response.{ok_status}
use naia_relay.Rlp.Following.{Follows}
use naia_relay.Rlp.Mirror.{Describes, snapshot-Follows}
use naia_relay.Runtime.Base.{with_timeout}
use naia_relay.Runtime.Client.{
  Link, Requester, on_peer, no_callbacks, link_holds, rlp_call, count, mark_link_stale,
}
use naia_relay.Runtime.Client as Client
use naia_relay.Runtime.Bind.{
  Surroundings, bind_message, snapshot_message, attempts, after_request, ask_host, status_of,
  details_of,
}

-- The client that the snapshot is loaded into.
abbrev pub loading : {P : Type 0} → Link P → Handling Unit
loading s = record { registry = s.registry; handler = s.rlp_handler; world = tt }

abbrev pub counted : {P : Type 0} → Link P → Link P
counted = count (λ stats. record stats { reconnect_attempts = stats.reconnect_attempts + 1 })

module _ {P : Type 0} (python : Interpreter) (models : Models) (ids : Ids) (now : ℕ) where
  abbrev pub loaded_with : RlpEnvelope → SnapshotPayload → Link P → Link P
  loaded_with e p s =
      let h = (dispatch no_callbacks python ids e (Payload.snapshot p) (loading s)).1 in
      record s { registry = h.registry; rlp_handler = h.handler }

  pub snapshot_loaded :
      (host_session host_relay : String) (details : Value) (e : RlpEnvelope) (p : SnapshotPayload)
      {host : RegistryStore} (s : Link P)
      → s.base.started ≡ true
      → Reads models (snapshot_message host_session host_relay details) e (Payload.snapshot p)
      → IsValid host
      → host.stale ≡ false
      → Describes p host
      → (Client.handle_rlp_message python models ids now none
            (snapshot_message host_session host_relay details)
            s
          ≡ (ok (ok_response ids.response (identity s.rlp_handler) e empty), loaded_with e p s))
        × Follows (loaded_with e p s).registry host
  unfolding Client.handle_rlp_message
  snapshot_loaded host_session host_relay details e p s started read sound fresh d =
      let follows = snapshot-Follows no_callbacks python ids e p (loading s) sound fresh d in
      let called =
        ap (λ (a, h). (a, record s { registry = h.registry; rlp_handler = h.handler }))
          (handled no_callbacks python ids models (snapshot_message host_session host_relay details)
            (ok_response ids.response (identity s.rlp_handler) e empty) e (Payload.snapshot p)
            (loading s) (dispatch no_callbacks python ids e (Payload.snapshot p) (loading s)).1 read
            (ap (λ r. (r, (dispatch no_callbacks python ids e (Payload.snapshot p) (loading s)).1))
              follows.0)) in
      (
        served link_holds now (rlp_call python models ids)
            (snapshot_message host_session host_relay details) s (loaded_with e p s) _ started refl
            (snapshot_quiet host_session host_relay details) called,
        follows.1,
      )

  module _ (around : Surroundings P) (requester : Requester P)
      (host_session host_relay : String) where
    pub asked :
        (s : Link P) (response : Object) (peer : P)
        → around.expiry 0 ≡ none
        → requester (bind_message host_session s.base.relay_id) s.peer ≡ (ok response, peer)
        → ask_host python models ids around requester host_session host_relay 0 s
          ≡ (ok response, record s { peer = peer })
    asked s response peer in_time e =
        ap
          (λ f.
            with_timeout link_holds.update
              (elim f [ none ↦ none | some g ↦ some (λ s. record s { peer = g s.peer }) ])
              "Relay-link bind" s.base.limits.connection_timeout_seconds
              (on_peer (requester (bind_message host_session s.base.relay_id))) s)
          in_time
        ∙ rw e refl

    pub status_ok :
        (mid : String) (self : Identity) (e : RlpEnvelope) (details : Object)
        → (status_of python models ids around requester host_session host_relay
              (ok_response mid self e details)
            ≡ ok (str "ok"))
          × (details_of python models ids around requester host_session host_relay
                (ok_response mid self e details)
              ≡ ok (dict details))
    unfolding ok_response rlp_reply ok_status get object
    status_ok mid self e details = (refl, refl)

    -- A bind whose first request is answered ok, with a snapshot that is loaded, ends there.
    pub first_round :
        (limit left : ℕ) (s s2 t : Link P) (mid : String) (self : Identity) (e : RlpEnvelope)
        (details loaded : Object)
        → let response = ok_response mid self e details in
          (ask_host python models ids around requester host_session host_relay 0 (counted s)
            ≡ (ok response, s2))
          → around.local_expiry ≡ none
          → Client.handle_rlp_message python models ids around.now none
              (snapshot_message host_session host_relay (dict details))
              s2
            ≡ (ok loaded, t)
          → attempts python models ids around requester host_session host_relay limit
              (suc left)
              0
              none
              s
            ≡ (ok response, t)
    unfolding attempts
    first_round limit left s s2 t mid self e details loaded told undisturbed read =
        let response = ok_response mid self e details in
        let (status, given) = status_ok mid self e details in
        ap
          (λ (r, s).
            after_request python models ids around requester host_session host_relay limit 0
              (attempts python models ids around requester host_session host_relay limit left 1) r
              s)
          told
        ∙ rw (status, given, undisturbed, read) refl
