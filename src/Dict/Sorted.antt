-- ===== src/Dict/Sorted.antt =====
-- Every operation keeps the keys strictly ascending, so that iteration is in key order and no
-- key stands twice.
use guestjs.Prelude.{◌≡◌, List, [], ◌∷◌, Ordering, arith, Ordering-cases, inl, inr}
use guestjs.Text.{Str}
use guestjs.Text.Order.{cmp, lt_of_gt}
use guestjs.Dict.{Dict, insert, extend}

-- `k` stands before the first key
abbrev pub Precedes {ℓ} : {V : Type ℓ} → Str → Dict V → Type 0
Precedes k [] = Unit
Precedes k ((j, v) ∷ d) = cmp k j ≡ Ordering.lt

abbrev pub IsSorted {ℓ} : {V : Type ℓ} → Dict V → Type 0
IsSorted [] = Unit
IsSorted ((k, v) ∷ d) = Precedes k d × IsSorted d

module _ {ℓ} {V : Type ℓ} where
  Precedes-insert :
      (i k : Str) (v : V) (d : Dict V)
      → cmp i k ≡ Ordering.lt
      → Precedes i d
      → Precedes i (insert k v d)
  unfolding insert
  Precedes-insert i k v [] h p = h
  Precedes-insert i k v ((j, w) ∷ d) h p = ground arith

  pub insert-IsSorted : (k : Str) (v : V) (d : Dict V) → IsSorted d → IsSorted (insert k v d)
  unfolding insert
  insert-IsSorted k v [] h = (tt, tt)
  insert-IsSorted k v ((j, w) ∷ d) (p, h) = elim (Ordering-cases (cmp k j)) [
    | inl lt ↦ rw (lt, insert) (lt, (p, h))
    | inr (inl eq) ↦ rw (eq, insert) (p, h)
    | inr (inr gt) ↦
        rw (gt, insert) (Precedes-insert j k v d (lt_of_gt k j gt) p, insert-IsSorted k v d h)
  ]

  pub extend-IsSorted : (es : List (Str × V)) (d : Dict V) → IsSorted d → IsSorted (extend es d)
  unfolding extend
  extend-IsSorted [] d h = h
  extend-IsSorted ((k, v) ∷ es) d h = extend-IsSorted es (insert k v d) (insert-IsSorted k v d h)
