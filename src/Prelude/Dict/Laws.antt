-- ===== src/Prelude/Dict/Laws.antt =====
-- A dict against the list of its entries: a new key goes to the end, and an erased one leaves no
-- trace.
use Prim.Native.Nat.{◌+◌}
use Prim.Native.String.{String}
use text.Mathlib.TextPositions.{eq_refl}
use mathlib.Core.Path.{◌≡◌, refl}
use mathlib.Core.Option.{none, some}
use mathlib.Core.List.{[], ◌∷◌, ◌++◌}
use native.Mathlib.Omega.{arith}
use naia_relay.Prelude.Lists.{length, length-append}
use naia_relay.Prelude.Dict.{Dict, lookup, insert, erase}

module _ {ℓ} {V : Type ℓ} where
  pub insert_new :
      (k : String) (v : V) (d : Dict V) → lookup k d ≡ none → insert k v d ≡ d ++ (k, v) ∷ []
  unfolding lookup insert
  insert_new k v [] h = refl
  insert_new k v ((j, w) ∷ d) h = ground (arith, insert_new k v d)

  pub lookup-append_absent :
      (k : String) (d e : Dict V)
      → lookup k (d ++ e) ≡ none
      → (lookup k d ≡ none) × (lookup k e ≡ none)
  unfolding lookup
  lookup-append_absent k [] e h = (refl, h)
  lookup-append_absent k ((j, w) ∷ d) e h = ground (arith, lookup-append_absent k d e)

  pub erase_absent : (k : String) (d : Dict V) → lookup k d ≡ none → erase k d ≡ d
  unfolding lookup erase
  erase_absent k [] h = refl
  erase_absent k ((j, w) ∷ d) h = ground (arith, erase_absent k d)

  pub erase-insert_new :
      (k : String) (v : V) (d : Dict V) → lookup k d ≡ none → erase k (insert k v d) ≡ d
  unfolding lookup insert erase
  erase-insert_new k v [] h = ground (arith, eq_refl k)
  erase-insert_new k v ((j, w) ∷ d) h = ground (arith, erase-insert_new k v d)

  pub length-insert_new :
      (k : String) (v : V) (d : Dict V) → lookup k d ≡ none → length (insert k v d) ≡ length d + 1
  length-insert_new k v d h = rw (insert_new k v d h) (length-append d ((k, v) ∷ []))

  pub length-insert_old :
      (k : String) (v w : V) (d : Dict V) → lookup k d ≡ some w → length (insert k v d) ≡ length d
  unfolding lookup insert
  length-insert_old k v w [] h = cc
  length-insert_old k v w ((j, u) ∷ d) h = ground (arith, length-insert_old k v w d)
