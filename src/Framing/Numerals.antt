-- ===== src/Framing/Numerals.antt =====
-- The number in a Content-Length header is read back as it was printed.
use Prim.Native.Nat.{◌*◌}
use naia_relay.Prelude.{
  ◌≡◌, refl, ap, ◌∙◌, inl, inr, ℕ, suc, zero, ◌+◌, ◌/◌, ◌%◌, ◌<◌, Bool, true, false, Option, some,
  [], ◌∷◌, ◌++◌, ltb, arith, Bool-cases, All,
}
use naia_relay.Framing.{Bytes}
use naia_relay.Framing.Headers.{is_digit, read_digits, read_digit}
use naia_relay.Framing.ContentLength.{print_digits}

abbrev pub IsDigits : Bytes → Type 0
IsDigits bs = All (λ b. is_digit b ≡ true) bs

IsDigits-append : (bs cs : Bytes) → IsDigits bs → IsDigits cs → IsDigits (bs ++ cs)
IsDigits-append [] cs h k = k
IsDigits-append (b ∷ bs) cs h k = (h.0, IsDigits-append bs cs h.1 k)

digit_char : (d : ℕ) → d < 10 → is_digit (48 + d) ≡ true
digit_char d h = ground (arith, h)

pub print_digits-IsDigits : (fuel n : ℕ) → IsDigits (print_digits fuel n)
unfolding print_digits
print_digits-IsDigits zero n = tt
print_digits-IsDigits (suc fuel) n = elim (Bool-cases (ltb n 10)) [
  | inl small ↦ rw small (digit_char n (ground (arith, small)), tt)
  | inr large ↦ rw large (
      IsDigits-append (print_digits fuel (n / 10)) ((48 + n % 10) ∷ [])
        (print_digits-IsDigits fuel (n / 10)) (digit_char (n % 10) (omega arith), tt))
]

read_digits-append :
    (state : Option (Bool × ℕ)) (bs cs : Bytes)
    → read_digits state (bs ++ cs) ≡ read_digits (read_digits state bs) cs
unfolding read_digits
read_digits-append state [] cs = refl
read_digits-append state (b ∷ bs) cs = read_digits-append (read_digit state b) bs cs

read_digit-digit :
    (needed : Bool) (n d : ℕ)
    → d < 10
    → read_digit (some (needed, n)) (48 + d) ≡ some (false, n * 10 + d)
read_digit-digit needed n d h =
    rw (digit_char d h) (ap (λ x. some (false, n * 10 + x)) (omega arith))

pub read-print_digits :
    (fuel n : ℕ) → n < fuel → read_digits (some (true, 0)) (print_digits fuel n) ≡ some (false, n)
unfolding read_digits print_digits
read-print_digits zero n h = absurd (omega (arith, h))
read-print_digits (suc fuel) n h = elim (Bool-cases (ltb n 10)) [
  | inl small ↦
      rw small (
        read_digit-digit true 0 n (ground (arith, small)) ∙ ap (λ x. some (false, x)) (omega arith))
  | inr large ↦
      rw
        (
          large,
          read_digits-append (some (true, 0)) (print_digits fuel (n / 10)) ((48 + n % 10) ∷ []),
          read-print_digits fuel (n / 10) (ground (arith, large, h)),
        )
        (read_digit-digit false (n / 10) (n % 10) (omega arith)
          ∙ ap (λ x. some (false, x)) (omega arith))
]

pub print_digits-cons :
    (fuel n : ℕ) → n < fuel → (d : ℕ) × (ds : Bytes) × (print_digits fuel n ≡ d ∷ ds)
unfolding print_digits
print_digits-cons zero n h = absurd (omega (arith, h))
print_digits-cons (suc fuel) n h = elim (Bool-cases (ltb n 10)) [
  | inl small ↦ rw small (48 + n, [], refl)
  | inr large ↦
      (let (d, ds, e) = print_digits-cons fuel (n / 10) (ground (arith, large, h)) in
        rw (large, e) (d, ds ++ (48 + n % 10) ∷ [], refl))
]
