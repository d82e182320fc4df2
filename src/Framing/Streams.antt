-- ===== src/Framing/Streams.antt =====
-- A frame with a content length is read back from the head of a stream.
use naia_relay.Prelude.{
  ◌≡◌, refl, sym, ap, ◌∙◌, subst, ℕ, suc, ◌≤◌, true, false, Option, none, some, [], ◌∷◌, ◌++◌, ltb,
  eqb, length, arith,
}
use naia_relay.Json.{Object, ℤ, pos}
use naia_relay.Errors.{Interpreter}
use naia_relay.Call.{ok}
use naia_relay.Framing.{Bytes, Codec}
use naia_relay.Framing.Headers.{HeaderTexts, readline, same_bytes, read_digits}
use naia_relay.Framing.ContentLength.{
  print_digits, header_prefix, frame, split_at, read_headers, after_line, encode_framed, Read, read,
  read_sync, when_read, read_body, read_some, read_exactly,
}
use naia_relay.Framing.Numerals.{
  IsDigits, print_digits-IsDigits, read-print_digits, print_digits-cons,
}
use naia_relay.Framing.HeaderLine.{crlf, readline-digits, header_length-digits}

split_at-append : (bs rest : Bytes) → split_at (length bs) (bs ++ rest) ≡ (bs, rest)
unfolding split_at
split_at-append [] rest = refl
split_at-append (b ∷ bs) rest = rw (split_at-append bs rest) refl

append_assoc : (as' bs cs : Bytes) → (as' ++ bs) ++ cs ≡ as' ++ (bs ++ cs)
append_assoc [] bs cs = refl
append_assoc (a ∷ as') bs cs = ap (λ x. a ∷ x) (append_assoc as' bs cs)

abbrev ended : Bytes → Bytes
ended stream = 13 ∷ 10 ∷ 13 ∷ 10 ∷ stream

first_line :
    (d : ℕ) (ds stream : Bytes)
    → IsDigits (d ∷ ds)
    → readline (header_prefix (d ∷ ds ++ ended stream))
      ≡ (header_prefix (d ∷ ds ++ crlf), 13 ∷ 10 ∷ stream)
unfolding readline
first_line d ds stream h = rw (readline-digits (d ∷ ds) (13 ∷ 10 ∷ stream) h) refl

module _ (texts : HeaderTexts) where
  read_headers-digits :
      (fuel d : ℕ) (ds stream : Bytes) (n : ℕ)
      → IsDigits (d ∷ ds)
      → read_digits (some (true, 0)) (d ∷ ds) ≡ some (false, n)
      → read_headers texts (suc (suc fuel)) none (header_prefix (d ∷ ds ++ ended stream))
        ≡ some (ok (some (pos n)), stream)
  unfolding read_headers readline same_bytes
  read_headers-digits fuel d ds stream n h e =
      ap
        (λ (line, rest).
          after_line texts line none (λ known. read_headers texts (suc fuel) known rest) rest)
        (first_line d ds stream h)
      ∙ rw (after_line, header_length-digits texts d ds n h e) refl

frame-append :
    (payload rest ds : Bytes)
    → print_digits (suc (length payload)) (length payload) ≡ ds
    → frame payload ++ rest ≡ header_prefix (ds ++ ended (payload ++ rest))
unfolding frame
frame-append payload rest ds printed =
    ap (λ x. header_prefix x)
      (append_assoc (print_digits (suc (length payload)) (length payload)) (ended payload) rest
        ∙ ap (λ x. x ++ ended (payload ++ rest)) printed)

module _ (python : Interpreter) (texts : HeaderTexts) (codec : Codec) (limit : ℕ) where
  body_read :
      (message : Object) (payload rest : Bytes)
      → codec.from_json payload ≡ ok message
      → length payload ≤ limit
      → let headers : Read (Option ℤ) = (ok (some (pos (length payload))), payload ++ rest) in
        (read_body python texts codec limit read_some headers ≡ (ok message, rest))
        × (read_body python texts codec limit read_exactly headers ≡ (ok message, rest))
  body_read message payload rest loads fits =
      let allowed : ltb limit (length payload) ≡ false = ground (arith, fits) in
      let whole : eqb (length payload) (length payload) ≡ true = ground arith in
      rw (allowed, split_at-append payload rest, whole, loads) (refl, refl)

  headers_read :
      (fuel : ℕ) (payload rest : Bytes)
      → read_headers texts (suc (suc fuel)) none (frame payload ++ rest)
        ≡ some (ok (some (pos (length payload))), payload ++ rest)
  headers_read fuel payload rest =
      let size = length payload in
      let (d, ds, printed) = print_digits-cons (suc size) size (omega arith) in
      ap (read_headers texts (suc (suc fuel)) none) (frame-append payload rest (d ∷ ds) printed)
      ∙ read_headers-digits texts fuel d ds (payload ++ rest) size
          (subst IsDigits printed (print_digits-IsDigits (suc size) size))
          (sym (ap (read_digits (some (true, 0))) printed)
            ∙ read-print_digits (suc size) size (omega arith))

  -- A message whose text is not above the limit, and which the codec reads back, is framed; and from a
  -- stream that begins with the frame, both readers return the message and leave what follows it.
  pub read-encode_framed :
      (fuel : ℕ) (message : Object) (rest : Bytes)
      → codec.from_json (codec.to_json message) ≡ ok message
      → length (codec.to_json message) ≤ limit
      → let framed = frame (codec.to_json message) in
        (encode_framed python texts codec limit message ≡ ok framed)
        × (read_sync python texts codec limit (suc (suc fuel)) (framed ++ rest)
            ≡ some (ok message, rest))
        × (read python texts codec limit (suc (suc fuel)) (framed ++ rest)
            ≡ some (ok message, rest))
  unfolding encode_framed read read_sync
  read-encode_framed fuel message rest loads fits =
      let payload = codec.to_json message in
      let allowed : ltb limit (length payload) ≡ false = ground (arith, fits) in
      let (here, there) = body_read message payload rest loads fits in
      let headers = headers_read fuel payload rest in
      (
        rw allowed refl,
        ap (when_read python texts codec limit read_some) headers ∙ ap some here,
        ap (when_read python texts codec limit read_exactly) headers ∙ ap some there,
      )
