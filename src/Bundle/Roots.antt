-- ===== src/Bundle/Roots.antt =====
-- The roots of a bundle are the first segments of its module names.
use guestjs.Prelude.{
  ◌≡◌, sym, ap, ◌∙◌, subst, ◌↔◌, inl, inr, true, false, List, [], ◌∷◌, map, arith, Bool-cases,
}
use guestjs.Text.{Str, str_eq, slash}
use guestjs.Text as Text
use guestjs.Text.Order.{eq_of_str_eq, str_eq_refl}
use guestjs.Dict.{elem}
use guestjs.Dict.Laws.{elem-collect, elem-keys}
use guestjs.Bundle.{Bundle, names, roots, contains}
use guestjs.Bundle.Name.{root}
use guestjs.Bundle.Name.Laws.{root-no_slash}

elem-map-root :
    (r : Str) (ns : List Str)
    → elem r (map root ns) ≡ true
    → (n : Str) × (elem n ns ≡ true) × (root n ≡ r)
unfolding elem
elem-map-root r [] m = cc
elem-map-root r (n ∷ ns) m = elim (Bool-cases (str_eq (root n) r)) [
  | inl e ↦ (n, ground (arith, str_eq_refl n), eq_of_str_eq (root n) r e)
  | inr ne ↦ let (k, i, e) = elem-map-root r ns (ground arith) in (k, ground arith, e)
]

elem-map_of_elem : (n : Str) (ns : List Str) → elem n ns ≡ true → elem (root n) (map root ns) ≡ true
unfolding elem
elem-map_of_elem n [] m = cc
elem-map_of_elem n (k ∷ ns) m = elim (Bool-cases (str_eq k n)) [
  | inl e ↦ ground (arith, eq_of_str_eq k n e, str_eq_refl (root n), ap root (eq_of_str_eq k n e))
  | inr ne ↦ ground (arith, elem-map_of_elem n ns (ground arith))
]

pub roots_sound :
    (b : Bundle) (r : Str)
    → elem r (roots b) ≡ true
    → (n : Str) × (contains b n ≡ true) × (root n ≡ r)
unfolding roots contains
roots_sound b r m =
    let (n, i, e) = elem-map-root r (names b) (sym (elem-collect r (map root (names b))) ∙ m) in
    (n, sym (elem-keys n b.modules) ∙ i, e)

pub roots_complete : (b : Bundle) (n : Str) → contains b n ≡ true → elem (root n) (roots b) ≡ true
unfolding roots contains
roots_complete b n m =
    elem-collect (root n) (map root (names b))
    ∙ elem-map_of_elem n (names b) (elem-keys n b.modules ∙ m)

pub roots-no_slash :
    (b : Bundle) (r : Str) → elem r (roots b) ≡ true → Text.contains slash r ≡ false
roots-no_slash b r m = let (n, _, e) = roots_sound b r m in rw (← e) (root-no_slash n)

-- The roots of a bundle are the first segments of the names of its modules.
pub roots_iff :
    (b : Bundle) (r : Str)
    → (elem r (roots b) ≡ true) ↔ ((n : Str) × (contains b n ≡ true) × (root n ≡ r))
roots_iff b r = (
  λ h. roots_sound b r h,
  λ h. subst (λ x. elem x (roots b) ≡ true) (h.2) (roots_complete b h.0 h.1),
)
