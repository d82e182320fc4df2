-- ===== src/Runtime/Answering.antt =====
-- What a started runtime does with a message, and a started host with the request of a bind.
use naia_relay.Prelude.{◌≡◌, refl, ap, ℕ, String, true, false, none, some, if◌then◌else◌}
use naia_relay.Json.{Value, Object, object, get, is_text}
use Prim.Native.String.{◌++◌ as ◌<>◌}
use naia_relay.Errors.{Interpreter, runtime_error}
use naia_relay.Call.{Call, ok, raised, zoom, continue, modify, pure, ◌>>◌}
use naia_relay.Pydantic.{valid}
use naia_relay.Rlp.Models.{Message, Models, RlpEnvelope, BindSessionPayload, SnapshotPayload, load}
use naia_relay.Rlp.Models as Payload
use naia_relay.Rlp.Handler.{bound_client_count, Callbacks, Handling, identity, validate_message}
use naia_relay.Rlp.Dispatch.{Ids, bind_session, dispatch, deliver}
use naia_relay.Rlp.Dispatch as Rlp_dispatch
use naia_relay.Rlp.Response.{ok_response}
use naia_relay.Rlp.Serialize.{build_snapshot_details}
use naia_relay.Rlp.Binding.{MayBind, with_client, bind_session_lem}
use naia_relay.Runtime.Base.{BaseRuntime, ensure_started}
use naia_relay.Runtime.Serve.{Holds, with_request_timeout}
use naia_relay.Runtime.Serve as Serve
use naia_relay.Runtime.Bind.{bind_message, snapshot_message}
use naia_relay.Runtime.Host.{HostRuntime, host_holds, handle_rlp_message}

started_ok : (b : BaseRuntime) → b.started ≡ true → ensure_started b ≡ (ok tt, b)
unfolding ensure_started
started_ok b h =
    ap
      (λ go_on.
        if go_on
        then (ok tt, b)
        else (raised (runtime_error (b.role <> " runtime is not started")), b))
      h

module _ {S A : Type 0} (holds : Holds S) where
  -- A message that is no heartbeat reaches the handler of a started runtime.
  pub served :
      (now : ℕ) (handler : Object → Call S A) (message : Object) (s t : S) (a : A)
      → (holds.base s).started ≡ true
      → holds.update (λ b. holds.base s) s ≡ s
      → is_text "heartbeat" (get "message_type" message) ≡ false
      → handler message s ≡ (ok a, t)
      → Serve.handle_message holds now none handler message s ≡ (ok a, t)
  unfolding Serve.handle_message with_request_timeout
  served now handler message s t a started same quiet e =
      rw (started_ok (holds.base s) started, quiet, same, e) refl

-- pydantic reads the message as this one.
pub record Reads (models : Models) (message : Object) (e : RlpEnvelope) (m : Message) : Type 0 where
  pub accepted : validate_message models message ≡ ok e
  pub loaded : load models e.message_type e.payload ≡ some (valid m)

module _ {W : Type 0} (callbacks : Callbacks W) (python : Interpreter) (ids : Ids) where
  pub handled :
      (models : Models) (message r : Object) (e : RlpEnvelope) (m : Message) (s t : Handling W)
      → Reads models message e m
      → dispatch callbacks python ids e m s ≡ (ok r, t)
      → Rlp_dispatch.handle_message callbacks python ids models message s ≡ (ok r, t)
  unfolding Rlp_dispatch.handle_message
  handled models message r e m s t read h = rw (read.accepted, read.loaded, h) refl

bind_quiet :
    (host_session relay : String)
    → is_text "heartbeat" (get "message_type" (bind_message host_session relay)) ≡ false
unfolding bind_message get object
bind_quiet host_session relay = refl

pub snapshot_quiet :
    (host_session host_relay : String) (details : Value)
    → is_text "heartbeat" (get "message_type" (snapshot_message host_session host_relay details))
      ≡ false
unfolding snapshot_message get object
snapshot_quiet host_session host_relay details = refl

-- The host with the client among those that are bound.
abbrev pub with_bound : {P : Type 0} → String → HostRuntime P → HostRuntime P
with_bound client host = record host {
  rlp_handler = with_client client host.rlp_handler;
  base = record host.base {
    stats = record host.base.stats {
      attached_clients = bound_client_count (with_client client host.rlp_handler);
    };
  };
}

abbrev count_clients : {P : Type 0} → HostRuntime P → HostRuntime P
count_clients s = record s {
  base = record s.base {
    stats = record s.base.stats { attached_clients = bound_client_count s.rlp_handler };
  };
}

module _ {P : Type 0} (python : Interpreter) (callbacks : Callbacks P) (models : Models) (ids : Ids)
    (now : ℕ) where
  pub host_binds :
      (host_session relay : String) (e : RlpEnvelope) (p : BindSessionPayload) (details : Object)
      (host : HostRuntime P)
      → host.base.started ≡ true
      → Reads models (bind_message host_session relay) e (Payload.bind_session p)
      → MayBind host.rlp_handler p
      → build_snapshot_details host.registry ≡ ok details
      → handle_rlp_message python callbacks models ids now none
          (bind_message host_session relay)
          host
        ≡ (
          ok (ok_response ids.response (identity host.rlp_handler) e details),
          with_bound p.client_instance_id host,
        )
  unfolding handle_rlp_message dispatch
  host_binds host_session relay e p details host started read may built =
      let h = identity host.rlp_handler in
      let r = ok_response ids.response h e details in
      let bound = with_client p.client_instance_id host.rlp_handler in
      let called =
        ap
          (λ (a, h).
            (a, record host { registry = h.registry; rlp_handler = h.handler; executor = h.world }))
          (handled callbacks python ids models (bind_message host_session relay) r e
            (Payload.bind_session p)
            (record { registry = host.registry; handler = host.rlp_handler; world = host.executor })
            (record { registry = host.registry; handler = bound; world = host.executor }) read
            (bind_session_lem callbacks python ids e p
              (record {
                registry = host.registry;
                handler = host.rlp_handler;
                world = host.executor;
              })
              may built)) in
      ap (λ (a, s). continue a (λ response. modify count_clients >> pure response) s)
        (served host_holds now
          (λ message.
            zoom
              (λ s. record { registry = s.registry; handler = s.rlp_handler; world = s.executor })
              (λ h s. record s {
                registry = h.registry;
                rlp_handler = h.handler;
                executor = h.world;
              })
              (Rlp_dispatch.handle_message callbacks python ids models message))
          (bind_message host_session relay) host (record host { rlp_handler = bound }) r started
          refl (bind_quiet host_session relay) called)
