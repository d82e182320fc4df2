-- ===== src/Call.antt =====
-- A method call: it reads and writes the state of its object, and returns or raises. What was
-- written before a raise stays written, so the state comes back with an exception too.
use naia_relay.Prelude.{Option, none, some, ◌≡◌, refl, ◌⊎◌, inl, inr, List, [], ◌∷◌, ap}
use naia_relay.Errors.{Exn}

pub data Result (A : Type 0) : Type 0 where
  ok : A → Result A
  raised : Exn → Result A

abbrev pub Call : Type 0 → Type 0 → Type 0
Call S A = S → Result A × S

module _ {S A : Type 0} where
  abbrev pub pure : A → Call S A
  pure a s = (ok a, s)

  abbrev pub raise : Exn → Call S A
  raise e s = (raised e, s)

  abbrev pub gets : (S → A) → Call S A
  gets f s = (ok (f s), s)

  abbrev pub lift : Result A → Call S A
  lift r s = (r, s)

abbrev pub modify : {S : Type 0} → (S → S) → Call S (Unit {0})
modify f s = (ok tt, f s)

module _ {S A B : Type 0} where
  abbrev pub continue : Result A → (A → Call S B) → Call S B
  continue (ok a) f = f a
  continue (raised e) f = raise e

  infixl 5 ◌>>=◌ ◌>>◌
  abbrev pub ◌>>=◌ : Call S A → (A → Call S B) → Call S B
  ◌>>=◌ m f s = let (r, s') = m s in continue r f s'

  abbrev pub ◌>>◌ : Call S A → Call S B → Call S B
  m >> k = m >>= λ _. k

module _ {S A : Type 0} where
  abbrev pub recover : (Exn → Call S A) → Result A → Call S A
  recover h (ok a) = pure a
  recover h (raised e) = h e

  -- try: m; except Exception as exc: h(exc)
  abbrev pub catch : Call S A → (Exn → Call S A) → Call S A
  catch m h s = let (r, s') = m s in recover h r s'

  -- try: m; finally: f
  abbrev pub finally : Call S A → (S → S) → Call S A
  finally m f s = let (r, s') = m s in (r, f s')

-- A method of one part of the object.
abbrev pub zoom : {S T A : Type 0} → (S → T) → (T → S → S) → Call T A → Call S A
zoom view update m s = let (r, t) = m (view s) in (r, update t s)

-- What a call raised, if it raised.
abbrev pub exception : {A : Type 0} → Result A → Option Exn
exception (ok _) = none
exception (raised e) = some e

-- A property of what a call returns; a call that raises has it too.
abbrev pub IfOk : {A : Type 0} → (A → Type 0) → Result A → Type 0
IfOk P (ok a) = P a
IfOk P (raised _) = Unit

-- A property of what a call raises; a call that returns has it too.
abbrev pub IfRaised : {A : Type 0} → (Exn → Type 0) → Result A → Type 0
IfRaised P (ok _) = Unit
IfRaised P (raised e) = P e

pub Result-cases :
    {A : Type 0} (r : Result A) → ((a : A) × (r ≡ ok a)) ⊎ ((e : Exn) × (r ≡ raised e))
Result-cases (ok a) = inl (a, refl)
Result-cases (raised e) = inr (e, refl)

module _ {S A B : Type 0} where
  pub IfOk-bind :
      (P : B → Type 0) (m : Call S A) (f : A → Call S B)
      → ((a : A) (s : S) → IfOk P (f a s).0)
      → (s : S) → IfOk P ((m >>= f) s).0
  IfOk-bind P m f h s = elim (Result-cases (m s).0) [
    | inl (a, e) ↦ rw e (h a (m s).1)
    | inr (x, e) ↦ rw e tt
  ]

  -- A property of the state that each part keeps.
  pub bind_keeps :
      (P : S → Type 0) (m : Call S A) (f : A → Call S B) (s : S)
      → P (m s).1
      → ((a : A) (s' : S) → P s' → P (f a s').1)
      → P ((m >>= f) s).1
  bind_keeps P m f s h k = elim (Result-cases (m s).0) [
    | inl (a, e) ↦ rw e (k a (m s).1 h)
    | inr (x, e) ↦ rw e h
  ]

abbrev pub cons_result : {A : Type 0} → Result A → Result (List A) → Result (List A)
cons_result (raised e) rest = raised e
cons_result (ok a) (raised e) = raised e
cons_result (ok a) (ok as') = ok (a ∷ as')

-- [f(x) for x in xs], for an `f` that may raise.
abbrev pub map_result : {A B : Type 0} → (A → Result B) → List A → Result (List B)
map_result f [] = ok []
map_result f (x ∷ xs) = cons_result (f x) (map_result f xs)

abbrev pub map_ok : {A B : Type 0} → (A → B) → Result A → Result B
map_ok f (ok a) = ok (f a)
map_ok f (raised e) = raised e

abbrev value_or : {A : Type 0} → A → Result A → A
value_or a (ok b) = b
value_or a (raised e) = a

pub ok_inj : {A : Type 0} {a b : A} → ok a ≡ ok b → a ≡ b
ok_inj {a = a} e = ap (value_or a) e
