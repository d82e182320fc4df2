-- ===== src/Prelude/Dict/Index.antt =====
-- A dict that files each value under a key of the value's own, as the registry does.
use Prim.Native.Nat.{◌+◌}
use Prim.Native.String.{String}
use text.Mathlib.TextEquality.{eq_iff}
use mathlib.Core.Path.{◌≡◌, refl, sym, ap, ◌∙◌}
use mathlib.Core.Option.{none, some}
use mathlib.Core.List.{List, [], ◌∷◌, ◌++◌, append-nil, append_assoc, foldl}
use native.Mathlib.Omega.{arith}
use naia_relay.Prelude.Lists.{length}
use naia_relay.Prelude.Dict.{
  Dict, lookup, insert, erase, values, from_values, lookup-insert, lookup-erase,
}
use naia_relay.Prelude.Dict.Laws.{insert_new, lookup-append_absent, erase_absent}

module _ {ℓ} {V : Type ℓ} (key : V → String) where
  -- Every value stands under its own key, and no key is listed twice.
  abbrev pub IsIndexed : Dict V → Type ℓ
  IsIndexed [] = Unit
  IsIndexed ((k, v) ∷ d) = (k ≡ key v) × (lookup k d ≡ none) × IsIndexed d

  pub insert-IsIndexed : (v : V) (d : Dict V) → IsIndexed d → IsIndexed (insert (key v) v d)
  unfolding insert lookup
  insert-IsIndexed v [] h = (refl, refl, tt)
  insert-IsIndexed v ((j, w) ∷ d) h = ground (
    arith,
    eq_iff j (key v),
    eq_iff (key v) j,
    insert-IsIndexed v d h.2,
    lookup-insert (key v) j v d,
  )

  pub erase-IsIndexed : (k : String) (d : Dict V) → IsIndexed d → IsIndexed (erase k d)
  unfolding erase
  erase-IsIndexed k [] h = tt
  erase-IsIndexed k ((j, w) ∷ d) h = ground (arith, erase-IsIndexed k d h.2, lookup-erase k j d)

  foldl-IsIndexed :
      (vs : List V) (d : Dict V) → IsIndexed d → IsIndexed (foldl (λ d v. insert (key v) v d) d vs)
  foldl-IsIndexed [] d h = h
  foldl-IsIndexed (v ∷ vs) d h = foldl-IsIndexed vs (insert (key v) v d) (insert-IsIndexed v d h)

  pub from_values-IsIndexed : (vs : List V) → IsIndexed (from_values key vs)
  unfolding from_values
  from_values-IsIndexed vs = foldl-IsIndexed vs [] tt

  absent_before :
      (d e : Dict V) (k : String) (v : V)
      → IsIndexed (d ++ (k, v) ∷ e)
      → (k ≡ key v) × (lookup k d ≡ none)
  unfolding lookup
  absent_before [] e k v h = (h.0, refl)
  absent_before ((j, w) ∷ d) e k v h = ground (
    arith,
    absent_before d e k v h.2,
    lookup-append_absent j d ((k, v) ∷ e) h.1,
    eq_iff j k,
    eq_iff k j,
  )

  insert_named :
      (k : String) (v : V) (d : Dict V)
      → k ≡ key v
      → lookup k d ≡ none
      → insert (key v) v d ≡ d ++ (k, v) ∷ []
  insert_named k v d e h = rw (← e) (insert_new k v d h)

  foldl-values :
      (d done : Dict V)
      → IsIndexed (done ++ d)
      → foldl (λ d v. insert (key v) v d) done (values d) ≡ done ++ d
  unfolding values
  foldl-values [] done h = sym (append-nil done)
  foldl-values ((k, v) ∷ d) done h =
      let (named, absent) = absent_before done d k v h in
      ap (λ e. foldl (λ d v. insert (key v) v d) e (values d)) (insert_named k v done named absent)
      ∙ foldl-values d (done ++ (k, v) ∷ []) (rw append_assoc h)
      ∙ append_assoc done ((k, v) ∷ []) d

  -- Rebuilding the dict from its values gives it back, in the same order.
  pub from_values-values : (d : Dict V) → IsIndexed d → from_values key (values d) ≡ d
  unfolding from_values
  from_values-values d h = foldl-values d [] h

  -- What is found under a key has that key.
  pub key-lookup : (k : String) (d : Dict V) {v : V} → IsIndexed d → lookup k d ≡ some v → key v ≡ k
  unfolding lookup
  key-lookup k [] h e = cc
  key-lookup k ((j, w) ∷ d) {v} h e = ground (arith, eq_iff j k, key-lookup k d {v = v} h.2)

  pub length-erase :
      (k : String) (d : Dict V) {v : V}
      → IsIndexed d
      → lookup k d ≡ some v
      → length (erase k d) + 1 ≡ length d
  unfolding lookup erase
  length-erase k [] h e = cc
  length-erase k ((j, w) ∷ d) {v} h e =
      ground (arith, eq_iff j k, length-erase k d {v = v} h.2, erase_absent k d)
