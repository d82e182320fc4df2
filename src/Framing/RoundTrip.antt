-- ===== src/Framing/RoundTrip.antt =====
-- Which messages of a LineJsonFramer its peer reads back.
use naia_relay.Prelude.{
  ◌≡◌, refl, ap, ◌∙◌, ◌≢◌, ℕ, ◌<◌, [], ◌∷◌, ◌++◌, arith, ltb, length, length-append, false,
}
use naia_relay.Json.{Object}
use naia_relay.Errors.{transport_error, Interpreter}
use naia_relay.Call.{ok, raised}
use naia_relay.Framing.{Bytes, Codec, rstrip, keep_byte, encode, decode, decode_payload}

rstrip-append : (bs : Bytes) → rstrip (bs ++ 10 ∷ []) ≡ rstrip bs
unfolding rstrip
rstrip-append [] = refl
rstrip-append (b ∷ bs) = ap (keep_byte b) (rstrip-append bs)

-- json.dumps prints an object as a text that is not empty and ends with no newline, and json.loads
-- reads it back.
pub record IsJson (codec : Codec) (message : Object) : Type 0 where
  pub not_empty : codec.to_json message ≢ []
  pub no_newline : rstrip (codec.to_json message) ≡ codec.to_json message
  pub reads_back : codec.from_json (codec.to_json message) ≡ ok message

module _ (python : Interpreter) (codec : Codec) (limit : ℕ) (message : Object) where
  payload-read :
      (bs : Bytes)
      → bs ≢ []
      → codec.from_json bs ≡ ok message
      → decode_payload python codec limit bs ≡ ok message
  payload-read [] h e = absurd (h refl)
  payload-read (b ∷ bs) h e = rw e refl

  -- A message whose text is below the limit is framed, and the frame is decoded to the message.
  pub decode-encode :
      IsJson codec message
      → length (codec.to_json message) < limit
      → (encode python codec limit message ≡ ok (codec.to_json message ++ 10 ∷ []))
        × (decode python codec limit (codec.to_json message ++ 10 ∷ []) ≡ ok message)
  unfolding encode decode
  decode-encode h short =
      let size = length-append (codec.to_json message) (10 ∷ []) in
      let stripped = rstrip-append (codec.to_json message) ∙ h.no_newline in
      let read = payload-read (codec.to_json message) h.not_empty h.reads_back in
      let fits : ltb limit (length (codec.to_json message ++ 10 ∷ [])) ≡ false =
        grind (arith, size) in
      (grind arith, rw (decode, fits, stripped) read)

  -- A message whose text has exactly the size of the limit is framed, but a framer with the same
  -- limit refuses the frame, since it counts the newline.
  pub full_frame_refused :
      length (codec.to_json message) ≡ limit
      → (encode python codec limit message ≡ ok (codec.to_json message ++ 10 ∷ []))
        × (decode python codec limit (codec.to_json message ++ 10 ∷ [])
            ≡ raised (transport_error "Received frame exceeds configured maximum message size."))
  unfolding encode decode
  full_frame_refused full =
      let size = length-append (codec.to_json message) (10 ∷ []) in (grind arith, grind arith)
