-- ===== src/Framing/Headers.antt =====
-- src/naia_relay/transports/framing.py: ContentLengthJsonFramer, whose frames are header lines, an
-- empty line and the text. Of Python's `int`, the limit on the number of digits is left out.
use Prim.Native.Nat.{◌*◌}
use naia_relay.Prelude.{
  ℕ, suc, zero, ◌+◌, ◌-◌, String, Bool, true, false, Option, none, some, [], ◌∷◌, ◌&&◌, ◌||◌, not,
  map, if◌then◌else◌, ltb, leb, eqb,
}
use naia_relay.Json.{ℤ, pos, negsuc}
use naia_relay.Errors.{transport_error}
use naia_relay.Call.{Result, ok, raised}
use naia_relay.Framing.{Bytes}
use Prim.Native.String.{◌++◌ as ◌<>◌}

-- reader.readline() on a stream that holds these bytes and then ends: the line and what follows it.
unfoldable pub readline : Bytes → Bytes × Bytes
readline [] = ([], [])
readline (b ∷ bs) =
    let (line, rest) = readline bs in if eqb b 10 then (b ∷ [], bs) else (b ∷ line, rest)

unfoldable pub same_bytes : Bytes → Bytes → Bool
same_bytes [] [] = true
same_bytes (a ∷ as') (b ∷ bs) = eqb a b && same_bytes as' bs
same_bytes _ _ = false

-- line.decode("ascii")
unfoldable pub is_ascii : Bytes → Bool
is_ascii [] = true
is_ascii (b ∷ bs) = ltb b 128 && is_ascii bs

-- str.isspace of an ASCII character
abbrev pub is_space : ℕ → Bool
is_space b = (leb 9 b && leb b 13) || (leb 28 b && leb b 32)

unfoldable pub lstrip : Bytes → Bytes
lstrip [] = []
lstrip (b ∷ bs) = let rest = lstrip bs in if is_space b then rest else b ∷ bs

abbrev pub keep_character : ℕ → Bytes → Bytes
keep_character b [] = if is_space b then [] else b ∷ []
keep_character b (c ∷ cs) = b ∷ c ∷ cs

unfoldable pub rstrip_spaces : Bytes → Bytes
rstrip_spaces [] = []
rstrip_spaces (b ∷ bs) = keep_character b (rstrip_spaces bs)

abbrev pub strip : Bytes → Bytes
strip bs = lstrip (rstrip_spaces bs)

abbrev pub lower : ℕ → ℕ
lower b = if leb 65 b && leb b 90 then b + 32 else b

-- header.split(":", 1), if there is a colon
abbrev pub after_first : ℕ → Option (Bytes × Bytes) → Option (Bytes × Bytes)
after_first b none = none
after_first b (some (name, value)) = some (b ∷ name, value)

unfoldable pub split_colon : Bytes → Option (Bytes × Bytes)
split_colon [] = none
split_colon (b ∷ bs) =
    let rest = after_first b (split_colon bs) in if eqb b 58 then some ([], bs) else rest

abbrev pub is_digit : ℕ → Bool
is_digit b = leb 48 b && leb b 57

-- A numeral that is read so far: whether a digit must come, and the value. Single underscores may
-- stand between digits.
abbrev pub read_digit : Option (Bool × ℕ) → ℕ → Option (Bool × ℕ)
read_digit none b = none
read_digit (some (needed, n)) b =
    if is_digit b
    then some (false, n * 10 + (b - 48))
    else if eqb b 95 && not needed
    then some (true, n)
    else none

unfoldable pub read_digits : Option (Bool × ℕ) → Bytes → Option (Bool × ℕ)
read_digits state [] = state
read_digits state (b ∷ bs) = read_digits (read_digit state b) bs

abbrev pub whole : Option (Bool × ℕ) → Option ℕ
whole (some (false, n)) = some n
whole _ = none

abbrev pub negated : ℕ → ℤ
negated zero = pos 0
negated (suc n) = negsuc n

abbrev pub signed : (ℕ → ℤ) → Option ℕ → Option ℤ
signed sign none = none
signed sign (some n) = some (sign n)

-- int(text) of a stripped ASCII text
unfoldable pub parse_int : Bytes → Option ℤ
unfolding read_digits
parse_int [] = none
parse_int (b ∷ bs) =
    if eqb b 45
    then signed negated (whole (read_digits (some (true, 0)) bs))
    else if eqb b 43
    then signed pos (whole (read_digits (some (true, 0)) bs))
    else signed pos (whole (read_digits (some (true, 0)) (b ∷ bs)))

-- "content-length"
abbrev pub content_length : Bytes
content_length =
    99 ∷ 111 ∷ 110 ∷ 116 ∷ 101 ∷ 110 ∷ 116 ∷ 45 ∷ 108 ∷ 101 ∷ 110 ∷ 103 ∷ 116 ∷ 104 ∷ []

-- How the interpreter writes a header line in an error: its `repr`, and why it is no ASCII text.
pub record HeaderTexts : Type 0 where
  pub repr : Bytes → String
  pub not_ascii : Bytes → String

module _ (texts : HeaderTexts) where
  abbrev pub length_in : Bytes → Option (Bytes × Bytes) → Result (Option ℤ)
  length_in header none =
      raised (transport_error ("Received malformed MCP header line: " <> texts.repr header))
  length_in header (some (name, value)) =
      if same_bytes (map lower (strip name)) content_length
      then elim (parse_int (strip value)) [
        | none ↦ raised (transport_error "Received invalid Content-Length header.")
        | some n ↦ ok (some n)
      ]
      else ok none

  -- What a header line says of the length of the text.
  unfoldable pub header_length : Bytes → Result (Option ℤ)
  unfolding is_ascii lstrip rstrip_spaces split_colon same_bytes parse_int
  header_length line =
      if is_ascii line
      then length_in (strip line) (split_colon (strip line))
      else raised (transport_error ("Received malformed MCP header: " <> texts.not_ascii line))

abbrev pub latest : Option ℤ → Option ℤ → Option ℤ
latest known none = known
latest known (some n) = some n

abbrev pub ends_headers : Bytes → Bool
ends_headers line = same_bytes line (13 ∷ 10 ∷ []) || same_bytes line (10 ∷ [])
