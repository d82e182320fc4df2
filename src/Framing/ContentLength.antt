-- ===== src/Framing/ContentLength.antt =====
-- src/naia_relay/transports/framing.py: ContentLengthJsonFramer's encode, read_sync and read, on a
-- stream that holds some bytes and then ends. The header loop runs on fuel.
use naia_relay.Prelude.{
  ℕ, suc, zero, ◌+◌, ◌/◌, ◌%◌, Bool, true, false, Option, none, some, [], ◌∷◌, ◌++◌, if◌then◌else◌,
  ltb, eqb, length,
}
use naia_relay.Json.{Object, ℤ, pos, negsuc}
use naia_relay.Errors.{Exn, transport_error, value_error, Interpreter}
use naia_relay.Call.{Result, ok, raised}
use naia_relay.Framing.{Bytes, Codec, malformed}
use naia_relay.Framing.Headers.{HeaderTexts, readline, header_length, latest, ends_headers}

-- str(n), in ASCII. The fuel is more than the digits of the number.
unfoldable pub print_digits : ℕ → ℕ → Bytes
print_digits zero n = []
print_digits (suc fuel) n =
    if ltb n 10 then (48 + n) ∷ [] else print_digits fuel (n / 10) ++ (48 + n % 10) ∷ []

-- "Content-Length: "
abbrev pub header_prefix : Bytes → Bytes
header_prefix rest =
    67 ∷ 111 ∷ 110 ∷ 116 ∷ 101 ∷ 110 ∷ 116 ∷ 45 ∷ 76 ∷ 101 ∷ 110 ∷ 103 ∷ 116 ∷ 104 ∷ 58 ∷ 32 ∷ rest

unfoldable pub frame : Bytes → Bytes
frame payload =
    header_prefix
      (print_digits (suc (length payload)) (length payload) ++ 13 ∷ 10 ∷ 13 ∷ 10 ∷ payload)

-- stream[:n] and stream[n:]
unfoldable pub split_at : ℕ → Bytes → Bytes × Bytes
split_at zero bs = ([], bs)
split_at (suc n) [] = ([], [])
split_at (suc n) (b ∷ bs) = let (taken, rest) = split_at n bs in (b ∷ taken, rest)

abbrev pub truncated : Exn
truncated = transport_error "Received truncated MCP message body."

-- What a reader does on a stream: what it returns or raises, and the stream that is left.
abbrev pub Read : Type 0 → Type 0
Read A = Result A × Bytes

-- The body of read_sync: reader.read(-1) and its like take all that is there.
abbrev pub read_some : ℤ → Bytes → Read Bytes
read_some (pos n) stream =
    let (payload, rest) = split_at n stream in
    if eqb (length payload) n then (ok payload, rest) else (raised truncated, rest)
read_some (negsuc n) stream = (raised truncated, [])

-- The body of read: reader.readexactly refuses a negative size itself.
abbrev pub read_exactly : ℤ → Bytes → Read Bytes
read_exactly (pos n) stream =
    let (payload, rest) = split_at n stream in
    if eqb (length payload) n then (ok payload, rest) else (raised truncated, rest)
read_exactly (negsuc n) stream =
    (raised (value_error "readexactly size can not be less than zero"), stream)

module _ (texts : HeaderTexts) where
  -- One header line, and the loop on the stream after it.
  abbrev pub after_line :
      Bytes → Option ℤ → (Option ℤ → Option (Read (Option ℤ))) → Bytes → Option (Read (Option ℤ))
  after_line [] known loop rest =
      some (raised (transport_error "stdio transport reached EOF"), rest)
  after_line (b ∷ bs) known loop rest = elim (ends_headers (b ∷ bs)) [
    | true ↦ some (ok known, rest)
    | false ↦ elim (header_length texts (b ∷ bs)) [
      | raised e ↦ some (raised e, rest)
      | ok found ↦ loop (latest known found)
    ]
  ]

  unfoldable pub read_headers : ℕ → Option ℤ → Bytes → Option (Read (Option ℤ))
  unfolding readline header_length
  read_headers zero known stream = none
  read_headers (suc fuel) known stream =
      let (line, rest) = readline stream in
      after_line line known (λ known. read_headers fuel known rest) rest

module _ (python : Interpreter) (texts : HeaderTexts) (codec : Codec)
    (max_message_size_bytes : ℕ) where
  unfoldable pub encode_framed : Object → Result Bytes
  unfolding frame
  encode_framed message =
      let payload = codec.to_json message in
      if ltb max_message_size_bytes (length payload)
      then raised (transport_error "Message exceeds configured maximum message size.")
      else ok (frame payload)

  abbrev pub loaded : Read Bytes → Read Object
  loaded (ok payload, rest) =
      (malformed python codec max_message_size_bytes (codec.from_json payload), rest)
  loaded (raised e, rest) = (raised e, rest)

  abbrev pub exceeds : ℤ → Bool
  exceeds (pos n) = ltb max_message_size_bytes n
  exceeds (negsuc n) = false

  -- What follows the headers.
  abbrev pub read_body : (ℤ → Bytes → Read Bytes) → Read (Option ℤ) → Read Object
  read_body body (raised e, rest) = (raised e, rest)
  read_body body (ok none, rest) = (raised (transport_error "Missing Content-Length header."), rest)
  read_body body (ok (some n), rest) =
      if exceeds n
      then (
        raised (transport_error "Received frame exceeds configured maximum message size."),
        rest,
      )
      else loaded (body n rest)

  abbrev pub when_read : (ℤ → Bytes → Read Bytes) → Option (Read (Option ℤ)) → Option (Read Object)
  when_read body none = none
  when_read body (some headers) = some (read_body body headers)

  unfoldable pub read_sync : ℕ → Bytes → Option (Read Object)
  unfolding read_headers split_at
  read_sync fuel stream = when_read read_some (read_headers texts fuel none stream)

  unfoldable pub read : ℕ → Bytes → Option (Read Object)
  unfolding read_headers split_at
  read fuel stream = when_read read_exactly (read_headers texts fuel none stream)
