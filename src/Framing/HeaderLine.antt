-- ===== src/Framing/HeaderLine.antt =====
-- The header line of a frame, read back.
use naia_relay.Prelude.{◌≡◌, refl, ℕ, true, false, some, [], ◌∷◌, ◌++◌, ltb, eqb, arith}
use naia_relay.Json.{pos}
use naia_relay.Call.{ok}
use naia_relay.Framing.{Bytes}
use naia_relay.Framing.Headers.{
  HeaderTexts, readline, header_length, is_digit, read_digits, is_ascii, is_space, lstrip,
  rstrip_spaces, split_colon, parse_int, same_bytes, strip,
}
use naia_relay.Framing.ContentLength.{header_prefix}
use naia_relay.Framing.Numerals.{IsDigits}

-- A digit is none of the characters that the reader looks for.
digit_facts :
    (b : ℕ)
    → is_digit b ≡ true
    → (is_space b ≡ false)
      × (eqb b 10 ≡ false)
      × (eqb b 45 ≡ false)
      × (eqb b 43 ≡ false)
      × (ltb b 128 ≡ true)
digit_facts b h =
    (ground (arith, h), ground (arith, h), ground (arith, h), ground (arith, h), ground (arith, h))

abbrev pub crlf : Bytes
crlf = 13 ∷ 10 ∷ []

rstrip-digits :
    (ds rest : Bytes) → IsDigits ds → rstrip_spaces rest ≡ [] → rstrip_spaces (ds ++ rest) ≡ ds
unfolding rstrip_spaces
rstrip-digits [] rest h e = e
rstrip-digits (d ∷ []) rest h e = rw e (rw (digit_facts d h.0).0 refl)
rstrip-digits (d ∷ c ∷ cs) rest h e = rw (rstrip-digits (c ∷ cs) rest h.1 e) refl

rstrip-IsDigits : (ds : Bytes) → IsDigits ds → rstrip_spaces ds ≡ ds
unfolding rstrip_spaces
rstrip-IsDigits [] h = refl
rstrip-IsDigits (d ∷ []) h = rw (digit_facts d h.0).0 refl
rstrip-IsDigits (d ∷ c ∷ cs) h = rw (rstrip-IsDigits (c ∷ cs) h.1) refl

is_ascii-digits : (ds rest : Bytes) → IsDigits ds → is_ascii (ds ++ rest) ≡ is_ascii rest
unfolding is_ascii
is_ascii-digits [] rest h = refl
is_ascii-digits (d ∷ ds) rest h = rw (digit_facts d h.0).4 (is_ascii-digits ds rest h.1)

pub readline-digits :
    (ds rest : Bytes) → IsDigits ds → readline (ds ++ 13 ∷ 10 ∷ rest) ≡ (ds ++ crlf, rest)
unfolding readline
readline-digits [] rest h = refl
readline-digits (d ∷ ds) rest h = rw ((digit_facts d h.0).1, readline-digits ds rest h.1) refl

-- A numeral with the space before it and the line's end after it.
parse_int-digits :
    (d : ℕ) (ds : Bytes) (n : ℕ)
    → IsDigits (d ∷ ds)
    → read_digits (some (true, 0)) (d ∷ ds) ≡ some (false, n)
    → parse_int (strip (32 ∷ d ∷ ds)) ≡ some (pos n)
unfolding parse_int lstrip rstrip_spaces
parse_int-digits d ds n h e =
    let f = digit_facts d h.0 in rw (rstrip-IsDigits (d ∷ ds) h, f.0, f.2, f.3, e) refl

stripped :
    (d : ℕ) (ds : Bytes)
    → IsDigits (d ∷ ds)
    → strip (header_prefix (d ∷ ds ++ crlf)) ≡ header_prefix (d ∷ ds)
unfolding lstrip rstrip_spaces
stripped d ds h = rw (rstrip-digits (d ∷ ds) crlf h refl) refl

module _ (texts : HeaderTexts) where
  pub header_length-digits :
      (d : ℕ) (ds : Bytes) (n : ℕ)
      → IsDigits (d ∷ ds)
      → read_digits (some (true, 0)) (d ∷ ds) ≡ some (false, n)
      → header_length texts (header_prefix (d ∷ ds ++ crlf)) ≡ ok (some (pos n))
  unfolding header_length is_ascii split_colon same_bytes
  header_length-digits d ds n h e =
      rw (is_ascii-digits (d ∷ ds) crlf h, stripped d ds h, parse_int-digits d ds n h e) refl
