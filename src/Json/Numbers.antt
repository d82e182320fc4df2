-- ===== src/Json/Numbers.antt =====
-- Integers, and the decimal digits of a natural number.
use Prim.Native.String.{◌++◌ as ◌<>◌}
use naia_relay.Prelude.{ℕ, zero, suc, ◌/◌, ◌%◌, String, ltb, if◌then◌else◌, eqb}

-- `negsuc n` is -(n + 1).
pub data ℤ : Type 0 where
  pos : ℕ → ℤ
  negsuc : ℕ → ℤ

digit : ℕ → String
digit n =
    if eqb n 0
    then "0"
    else if eqb n 1
    then "1"
    else if eqb n 2
    then "2"
    else if eqb n 3
    then "3"
    else if eqb n 4
    then "4"
    else if eqb n 5
    then "5"
    else if eqb n 6
    then "6"
    else if eqb n 7
    then "7"
    else if eqb n 8
    then "8"
    else "9"

-- The fuel is the number itself, which is more than its digits.
digits_of : ℕ → ℕ → String → String
digits_of zero n acc = acc
digits_of (suc fuel) n acc =
    let rest = digits_of fuel (n / 10) (digit (n % 10) <> acc) in
    if ltb n 10 then digit n <> acc else rest

-- str(n)
unfoldable pub decimal : ℕ → String
unfolding digits_of digit
decimal n = digits_of (suc n) n ""
