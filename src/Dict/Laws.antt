-- ===== src/Dict/Laws.antt =====
-- What reading a map returns after each operation.
use guestjs.Prelude.{
  ◌≡◌, refl, inl, inr, true, false, ◌||◌, none, some, List, [], ◌∷◌, map, arith, Option-cases,
  if◌then◌else◌,
}
use guestjs.Text.{Str, str_eq}
use guestjs.Text.Order.{str_eq_iff, eq_of_cmp, str_eq-cmp}
use guestjs.Dict.{Dict, get, insert, contains_key, keys, extend, elem, collect}

module _ {ℓ} {V : Type ℓ} where
  pub get-insert :
      (k j : Str) (v : V) (d : Dict V)
      → get j (insert k v d) ≡ (if str_eq k j then some v else get j d)
  unfolding get insert
  get-insert k j v [] = refl
  get-insert k j v ((i, w) ∷ d) =
      ground
        (arith, get-insert k j v d, eq_of_cmp k i, str_eq-cmp k i, str_eq_iff k j, str_eq_iff i j)

  pub contains_key-insert :
      (k j : Str) (v : V) (d : Dict V)
      → contains_key j (insert k v d) ≡ (str_eq k j || contains_key j d)
  unfolding contains_key
  contains_key-insert k j v d = ground (arith, get-insert k j v d)

  pub get-none : (k : Str) (d : Dict V) → contains_key k d ≡ false → get k d ≡ none
  unfolding contains_key
  get-none k d h = ground arith

  pub get-some : (k : Str) (d : Dict V) → contains_key k d ≡ true → (v : V) × (get k d ≡ some v)
  unfolding contains_key
  get-some k d h = elim (Option-cases (get k d)) [ inl e ↦ absurd (ground arith) | inr held ↦ held ]

  pub contains_of_get : (k : Str) (d : Dict V) {v : V} → get k d ≡ some v → contains_key k d ≡ true
  unfolding contains_key
  contains_of_get k d h = ground arith

  pub elem-keys : (k : Str) (d : Dict V) → elem k (keys d) ≡ contains_key k d
  unfolding elem keys contains_key get
  elem-keys k [] = refl
  elem-keys k ((j, v) ∷ d) = ground (arith, elem-keys k d)

  -- a list of entries that all hold `v`
  pub get-extend_const :
      (j : Str) (v : V) (ks : List Str) (d : Dict V)
      → get j (extend (map (λ k. (k, v)) ks) d) ≡ (if elem j ks then some v else get j d)
  unfolding extend elem
  get-extend_const j v [] d = refl
  get-extend_const j v (k ∷ ks) d =
      ground (arith, get-extend_const j v ks (insert k v d), get-insert k j v d)

module _ {ℓ} {V : Type ℓ} where
  pub contains_key-extend_const :
      (j : Str) (v : V) (ks : List Str) (d : Dict V)
      → contains_key j (extend (map (λ k. (k, v)) ks) d) ≡ (elem j ks || contains_key j d)
  unfolding contains_key
  contains_key-extend_const j v ks d = ground (arith, get-extend_const j v ks d)

pub elem-collect : (k : Str) (l : List Str) → elem k (keys (collect l)) ≡ elem k l
unfolding collect contains_key get
elem-collect k l = ground (
  arith,
  elem-keys {0} k (extend (map (λ name. (name, tt)) l) []),
  get-extend_const {0} k tt l [],
)
