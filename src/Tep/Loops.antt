-- ===== src/Tep/Loops.antt =====
-- The loop over the items of a message: what it keeps, and where it stops.
use naia_relay.Prelude.{◌≡◌, refl, ap, inl, inr, List, [], ◌∷◌, ◌++◌}
use naia_relay.Errors.{Exn}
use naia_relay.Call.{Call, Result, ok, raised, Result-cases}
use naia_relay.Tep.Handler.{for_each}

raised_injective : {A : Type 0} {d e : Exn} → ◌≡◌ {A = Result A} (raised d) (raised e) → d ≡ e
raised_injective h = cc h

module _ {S A B : Type 0} (f : A → Call S B) where
  -- What every round keeps, the loop keeps, also where a round raises.
  pub for_each_keeps :
      (P : S → Type 0)
      → ((x : A) (s : S) → P s → P (f x s).1)
      → (xs : List A) (s : S) → P s
      → P (for_each f xs s).1
  unfolding for_each
  for_each_keeps P keep [] s h = h
  for_each_keeps P keep (x ∷ xs) s h = elim (Result-cases (f x s).0) [
    | inl (b, e) ↦ rw e (for_each_keeps P keep xs (f x s).1 (keep x s h))
    | inr (x', e) ↦ rw e (keep x s h)
  ]

  -- A loop that raises has run up to an item whose own round raised, and its state is that of the
  -- rounds before and of that one.
  pub record StopsAt (xs : List A) (s : S) (e : Exn) : Type 0 where
    pub before : List A
    pub item : A
    pub after : List A
    pub split : xs ≡ before ++ item ∷ after
    pub ran : (for_each f before s).0 ≡ ok tt
    pub stopped : (f item (for_each f before s).1).0 ≡ raised e
    pub left : (for_each f xs s).1 ≡ (f item (for_each f before s).1).1

  StopsAt-cons :
      (x : A) (xs : List A) (s : S) {e : Exn} {b : B}
      → (f x s).0 ≡ ok b
      → StopsAt xs (f x s).1 e
      → StopsAt (x ∷ xs) s e
  unfolding for_each
  StopsAt-cons x xs s ran stop = record {
    before = x ∷ stop.before;
    item = stop.item;
    after = stop.after;
    split = cc (stop.split);
    ran = rw ran stop.ran;
    stopped = rw ran stop.stopped;
    left = rw ran stop.left;
  }

  pub for_each-StopsAt :
      (xs : List A) (s : S) {e : Exn} → (for_each f xs s).0 ≡ raised e → StopsAt xs s e
  unfolding for_each
  for_each-StopsAt [] s h = cc
  for_each-StopsAt (x ∷ xs) s {e} h = elim (Result-cases (f x s).0) [
    | inl (b, ran) ↦ StopsAt-cons x xs s ran (for_each-StopsAt xs (f x s).1 (rw ran at h))
    | inr (e', stop) ↦ record {
      before = [];
      item = x;
      after = xs;
      split = refl;
      ran = refl;
      stopped = rw stop (ap raised (raised_injective (rw stop at h)));
      left = rw stop;
    }
  ]
