-- ===== src/Framing/Frames.antt =====
-- The reading of frames ends, and gives back what was framed.
use naia_relay.Prelude.{
  ◌≡◌, refl, inl, inr, ℕ, suc, zero, ◌<◌, ◌≤◌, Option, none, some, [], ◌∷◌, eqb, length, arith,
  Bool-cases,
}
use naia_relay.Json.{Object, ℤ}
use naia_relay.Errors.{Interpreter}
use naia_relay.Call.{Result-cases}
use naia_relay.Framing.{Bytes, Codec}
use naia_relay.Framing.Headers.{HeaderTexts, readline, header_length, latest, ends_headers}
use naia_relay.Framing.ContentLength.{read_headers, after_line, Read, read, read_sync}

readline-rest : (b : ℕ) (bs : Bytes) → length (readline (b ∷ bs)).1 ≤ length bs
unfolding readline
readline-rest b [] = ground arith
readline-rest b (c ∷ cs) = elim (Bool-cases (eqb b 10)) [
  | inl e ↦ rw e (omega arith)
  | inr e ↦ rw e (omega (arith, readline-rest c cs))
]

module _ (texts : HeaderTexts) where
  after_line-total :
      (line : Bytes) (known : Option ℤ) (loop : Option ℤ → Option (Read (Option ℤ))) (rest : Bytes)
      → ((k : Option ℤ) → (r : Read (Option ℤ)) × (loop k ≡ some r))
      → (r : Read (Option ℤ)) × (after_line texts line known loop rest ≡ some r)
  after_line-total [] known loop rest h = (_, refl)
  after_line-total (b ∷ bs) known loop rest h = elim (Bool-cases (ends_headers (b ∷ bs))) [
    | inl e ↦ rw (after_line, e) (_, refl)
    | inr e ↦ elim (Result-cases (header_length texts (b ∷ bs))) [
      | inl (found, e') ↦ rw (after_line, e, e') (h (latest known found))
      | inr (x, e') ↦ rw (after_line, e, e') (_, refl)
    ]
  ]

  -- Fuel for one step more than the stream has bytes is enough.
  read_headers-total :
      (fuel : ℕ) (known : Option ℤ) (stream : Bytes)
      → length stream < fuel
      → (r : Read (Option ℤ)) × (read_headers texts fuel known stream ≡ some r)
  unfolding read_headers readline
  read_headers-total zero known stream h = absurd (omega (arith, h))
  read_headers-total (suc fuel) known [] h = (_, refl)
  read_headers-total (suc fuel) known (b ∷ bs) h =
      after_line-total (readline (b ∷ bs)).0 known
        (λ k. read_headers texts fuel k (readline (b ∷ bs)).1) (readline (b ∷ bs)).1
        (λ k.
          read_headers-total fuel k (readline (b ∷ bs)).1 (omega (arith, h, readline-rest b bs)))

module _ (python : Interpreter) (texts : HeaderTexts) (codec : Codec) (limit : ℕ) where
  -- Whatever a stream holds, both readers return or raise on it, in no more rounds of the header loop
  -- than the stream has bytes and one.
  pub read-total :
      (fuel : ℕ) (stream : Bytes)
      → length stream < fuel
      → ((r : Read Object) × (read_sync python texts codec limit fuel stream ≡ some r))
        × ((r : Read Object) × (read python texts codec limit fuel stream ≡ some r))
  unfolding read read_sync
  read-total fuel stream h =
      let (r, e) = read_headers-total texts fuel none stream h in rw e ((_, refl), (_, refl))
