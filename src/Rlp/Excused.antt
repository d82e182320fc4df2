-- ===== src/Rlp/Excused.antt =====
-- What the handler makes of its callbacks: their values, and their exceptions.
use naia_relay.Prelude.{◌≡◌, ◌⊎◌, Option, none, some}
use naia_relay.Json.{Object}
use naia_relay.Errors.{Exn, ProtocolError, protocol_error, Interpreter}
use naia_relay.Call.{Call, Result, ok, raised}
use naia_relay.Rlp.Models as Payload
use naia_relay.Rlp.Models.{
  Message, Models, RlpEnvelope, load, ExecuteToolPayload, ReadResourcePayload, GetPromptPayload,
}
use naia_relay.Rlp.Response.{copied}
use naia_relay.Rlp.Handler.{Handling, Callbacks}
use naia_relay.Rlp.Correlation.{Answers}

-- The messages that reach a callback.
pub data CallsBack : Message → Type 0 where
  executes : (p : ExecuteToolPayload) → CallsBack (Payload.execute_tool p)
  reads : (p : ReadResourcePayload) → CallsBack (Payload.read_resource p)
  prompts : (p : GetPromptPayload) → CallsBack (Payload.get_prompt p)

abbrev failed : {A : Type 0} → Result A → Option Exn
failed (ok a) = none
failed (raised x) = some x

-- What the callback that a message reaches raises, if there is one and it does.
abbrev pub failure : {W : Type 0} → Callbacks W → Message → W → Option Exn
failure callbacks (Payload.execute_tool p) w = elim callbacks.execute_tool [
  | none ↦ none
  | some f ↦ failed (f p w).0
]
failure callbacks (Payload.read_resource p) w = elim callbacks.read_resource [
  | none ↦ none
  | some f ↦ failed (f p w).0
]
failure callbacks (Payload.get_prompt p) w = elim callbacks.get_prompt [
  | none ↦ none
  | some f ↦ failed (f p w).0
]
failure callbacks m w = none

-- The call returned a response to the message, or raised what `dict(exc.data)` raises of the
-- callback's own ProtocolError; it changed at most the callbacks' world.
abbrev pub Answered :
    {W : Type 0}
    → Interpreter
    → RlpEnvelope
    → Option Exn
    → Handling W
    → Result Object × Handling W
    → Type 0
Answered python e why s (r, s') =
    (((response : Object) × (r ≡ ok response) × Answers e response)
      ⊎ ((q : ProtocolError) × (x : Exn) × (why ≡ some (protocol_error q))
          × (copied python q.error_data ≡ raised x)
          × (r ≡ raised x)))
    × (s'.registry ≡ s.registry)
    × (s'.handler ≡ s.handler)
