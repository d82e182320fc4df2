-- ===== src/Framing.antt =====
-- src/naia_relay/transports/framing.py: LineJsonFramer. A byte is a natural, and a newline is 10.
-- The text of a message in UTF-8, and what it is read back as, are the parameter `Codec`.
pub mod RoundTrip
pub mod Headers
pub mod ContentLength
pub mod Frames
pub mod Numerals
pub mod HeaderLine
pub mod Streams
use Prim.Native.String.{◌++◌ as ◌<>◌}
use naia_relay.Prelude.{ℕ, List, [], ◌∷◌, ◌++◌, if◌then◌else◌, ltb, eqb, length}
use naia_relay.Json.{Object}
use naia_relay.Errors.{Exn, transport_error, Interpreter}
use naia_relay.Call.{Result, ok, raised}

abbrev pub Bytes : Type 0
Bytes = List ℕ

-- to_json(message).encode("utf-8") and from_json(payload.decode("utf-8")) of core/serde.py.
pub record Codec : Type 0 where
  pub to_json : Object → Bytes
  pub from_json : Bytes → Result Object

-- The head of a stripped list whose tail is stripped to `rest`.
abbrev pub keep_byte : ℕ → Bytes → Bytes
keep_byte b [] = if eqb b 10 then [] else b ∷ []
keep_byte b (c ∷ cs) = b ∷ c ∷ cs

-- frame.rstrip(b"\n")
unfoldable pub rstrip : Bytes → Bytes
rstrip [] = []
rstrip (b ∷ bs) = keep_byte b (rstrip bs)

module _ (python : Interpreter) (codec : Codec) (max_message_size_bytes : ℕ) where
  unfoldable pub encode : Object → Result Bytes
  encode message =
      let payload = codec.to_json message in
      if ltb max_message_size_bytes (length payload)
      then raised (transport_error "Message exceeds configured maximum message size.")
      else ok (payload ++ 10 ∷ [])

  abbrev pub malformed : Result Object → Result Object
  malformed (ok message) = ok message
  malformed (raised e) =
      raised (transport_error ("Received malformed JSON frame: " <> python.str_exc e))

  abbrev pub decode_payload : Bytes → Result Object
  decode_payload [] = raised (transport_error "Received empty frame.")
  decode_payload (b ∷ bs) = malformed (codec.from_json (b ∷ bs))

  unfoldable pub decode : Bytes → Result Object
  unfolding rstrip
  decode frame =
      if ltb max_message_size_bytes (length frame)
      then raised (transport_error "Received frame exceeds configured maximum message size.")
      else decode_payload (rstrip frame)
