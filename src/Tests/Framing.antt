-- ===== src/Tests/Framing.antt =====
-- Runs of the framer's theorems.
use naia_relay.Prelude.{◌≡◌, refl, [], ◌∷◌, ◌++◌, some, arith}
use naia_relay.Json.{Object, empty}
use naia_relay.Errors.{transport_error, value_error}
use naia_relay.Call.{ok, raised}
use naia_relay.Framing.{Bytes, Codec, rstrip, encode, decode}
use naia_relay.Framing.RoundTrip.{IsJson, decode-encode, full_frame_refused}
use naia_relay.Framing.Headers.{
  HeaderTexts, readline, header_length, same_bytes, is_ascii, lstrip, rstrip_spaces, split_colon,
  parse_int, read_digits,
}
use naia_relay.Framing.ContentLength.{
  Read, encode_framed, frame, header_prefix, read, read_sync, read_headers, truncated,
}
use naia_relay.Framing.Frames.{read-total}
use naia_relay.Framing.Streams.{read-encode_framed}
use naia_relay.Tests.Samples.{python}

-- The codec of the empty object.
abbrev braces : Codec
braces = record { to_json = λ o. 123 ∷ 125 ∷ []; from_json = λ bs. ok empty }

braces-IsJson : IsJson braces empty
unfolding rstrip
braces-IsJson = record { not_empty = λ h. ground (arith, h); no_newline = refl; reads_back = refl }

decode-encode_example :
    (encode python braces 1024 empty ≡ ok (123 ∷ 125 ∷ 10 ∷ []))
    × (decode python braces 1024 (123 ∷ 125 ∷ 10 ∷ []) ≡ ok empty)
decode-encode_example = decode-encode python braces 1024 empty braces-IsJson (omega arith)

full_frame_refused_example :
    (encode python braces 2 empty ≡ ok (123 ∷ 125 ∷ 10 ∷ []))
    × (decode python braces 2 (123 ∷ 125 ∷ 10 ∷ [])
        ≡ raised (transport_error "Received frame exceeds configured maximum message size."))
full_frame_refused_example = full_frame_refused python braces 2 empty refl

abbrev texts : HeaderTexts
texts = record { repr = λ bs. "header"; not_ascii = λ bs. "header" }

read-total_example :
    ((r : Read Object) × (read_sync python texts braces 1024 3 (13 ∷ 10 ∷ []) ≡ some r))
    × ((r : Read Object) × (read python texts braces 1024 3 (13 ∷ 10 ∷ []) ≡ some r))
read-total_example = read-total python texts braces 1024 3 (13 ∷ 10 ∷ []) (omega arith)

read-encode_framed_example :
    (encode_framed python texts braces 1024 empty ≡ ok (frame (123 ∷ 125 ∷ [])))
    × (read_sync python texts braces 1024 2 (frame (123 ∷ 125 ∷ []) ++ 67 ∷ [])
        ≡ some (ok empty, 67 ∷ []))
    × (read python texts braces 1024 2 (frame (123 ∷ 125 ∷ []) ++ 67 ∷ [])
        ≡ some (ok empty, 67 ∷ []))
read-encode_framed_example =
    read-encode_framed python texts braces 1024 0 empty (67 ∷ []) refl (omega arith)

-- A length below zero is no frame's: read_sync refuses it, and read lets a ValueError out.
abbrev negative : Bytes
negative = header_prefix (45 ∷ 53 ∷ 13 ∷ 10 ∷ 13 ∷ 10 ∷ [])

negative_sync : read_sync python texts braces 1024 3 negative ≡ some (raised truncated, [])
unfolding read_sync read_headers readline header_length same_bytes is_ascii lstrip rstrip_spaces
    split_colon parse_int read_digits
negative_sync = refl

negative_async :
    read python texts braces 1024 3 negative
    ≡ some (raised (value_error "readexactly size can not be less than zero"), [])
unfolding read read_headers readline header_length same_bytes is_ascii lstrip rstrip_spaces
    split_colon parse_int read_digits
negative_async = refl
