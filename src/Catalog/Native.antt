-- ===== src/Catalog/Native.antt =====
-- `NativeModule` of crates/guestjs-core/src/host/native.rs: a name, and aliases that differ from
-- it and from one another.
use guestjs.Prelude.{
  ℕ, ◌≡◌, refl, false, not, ◌&&◌, ◌||◌, List, [], ◌∷◌, arith, Bool-cases, inl, inr, push,
  if◌then◌else◌,
}
use guestjs.Text.{Str, str_eq}
use guestjs.Text.Order.{str_eq_comm}
use guestjs.Dict.{elem}

-- `declare` is a shared closure of the backend, named by a number.
pub record NativeModule : Type 0 where
  pub name : Str
  pub aliases : List Str
  pub declare : ℕ

unfoldable pub new : Str → ℕ → NativeModule
new name declare = record { name = name; aliases = []; declare = declare }

unfoldable pub alias : Str → NativeModule → NativeModule
unfolding elem str_eq
alias a m =
    if not (str_eq a m.name) && not (elem a m.aliases)
    then record m { aliases = push m.aliases a }
    else m

-- no name stands twice
abbrev pub IsDistinct : List Str → Type 0
IsDistinct [] = Unit
IsDistinct (x ∷ xs) = (elem x xs ≡ false) × IsDistinct xs

pub elem-push : (k x : Str) (xs : List Str) → elem k (push xs x) ≡ (elem k xs || str_eq x k)
unfolding elem
elem-push k x [] = ground arith
elem-push k x (y ∷ xs) = ground (arith, elem-push k x xs)

pub IsDistinct-push :
    (x : Str) (xs : List Str) → elem x xs ≡ false → IsDistinct xs → IsDistinct (push xs x)
unfolding elem
IsDistinct-push x [] h d = (refl, tt)
IsDistinct-push x (y ∷ xs) h d =
    (ground (arith, elem-push y x xs, str_eq_comm x y), IsDistinct-push x xs (ground arith) d.1)

-- the aliases and the name are pairwise different
abbrev pub IsValid : NativeModule → Type 0
IsValid m = IsDistinct (m.name ∷ m.aliases)

pub new-IsValid : (name : Str) (declare : ℕ) → IsValid (new name declare)
unfolding new elem
new-IsValid name declare = (refl, tt)

-- However a native module is given its aliases, its names stay pairwise different.
pub alias-IsValid : (a : Str) (m : NativeModule) → IsValid m → IsValid (alias a m)
unfolding alias
alias-IsValid a m h = elim (Bool-cases (not (str_eq a m.name) && not (elem a m.aliases))) [
  | inl fresh ↦
      rw (fresh, alias)
        (
          ground (arith, elem-push m.name a m.aliases),
          IsDistinct-push a m.aliases (ground arith) h.1,
        )
  | inr known ↦ rw (known, alias) h
]
