-- ===== src/Dict.antt =====
-- `BTreeMap<String, V>` and `BTreeSet<String>`: entries in the order of their keys.
pub mod Laws
pub mod Sorted
use guestjs.Prelude.{
  Bool, true, false, Option, none, some, List, [], ◌∷◌, map, Ordering, is_some, if◌then◌else◌,
}
use guestjs.Text.{Str, str_eq}
use guestjs.Text.Order.{cmp}

abbrev pub Dict {ℓ} : Type ℓ → Type ℓ
Dict V = List (Str × V)

module _ {ℓ} {V : Type ℓ} where
  unfoldable pub get : Str → Dict V → Option V
  get k [] = none
  get k ((j, v) ∷ d) = if str_eq j k then some v else get k d

  unfoldable pub insert : Str → V → Dict V → Dict V
  unfolding cmp
  insert k v [] = (k, v) ∷ []
  insert k v ((j, w) ∷ d) = elim (cmp k j) [
    | Ordering.lt ↦ (k, v) ∷ (j, w) ∷ d
    | Ordering.eq ↦ (j, v) ∷ d
    | Ordering.gt ↦ (j, w) ∷ insert k v d
  ]

  unfoldable pub contains_key : Str → Dict V → Bool
  unfolding get
  contains_key k d = is_some (get k d)

  unfoldable pub keys : Dict V → List Str
  keys d = map (λ e. e.0) d

  -- `extend`, one insertion after another
  unfoldable pub extend : List (Str × V) → Dict V → Dict V
  unfolding insert
  extend [] d = d
  extend ((k, v) ∷ es) d = extend es (insert k v d)

-- Whether a list of names has the name.
unfoldable pub elem : Str → List Str → Bool
elem k [] = false
elem k (j ∷ l) = let rest = elem k l in if str_eq j k then true else rest

abbrev pub StrSet : Type 0
StrSet = Dict (Unit {0})

-- `collect::<BTreeSet<_>>()`
unfoldable pub collect : List Str → StrSet
unfolding extend
collect names = extend (map (λ name. (name, tt)) names) []
