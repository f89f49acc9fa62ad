-- ===== src/Catalog/Denied.antt =====
-- `DeniedNames` of crates/guestjs-core/src/catalog.rs.
use guestjs.Prelude.{
  ◌≡◌, refl, sym, ap, ◌∙◌, or_eq_true, ◌↔◌, Bool, true, ◌||◌, List, [], ◌∷◌, arith, any, Bool-cases,
  inl, inr, ◌⊎◌,
}
use guestjs.Text.{Str, str_eq}
use guestjs.Text.Order.{eq_of_str_eq, str_eq_refl}
use guestjs.Dict.{StrSet, insert, keys, elem, contains_key}
use guestjs.Dict.Laws.{elem-keys, contains_key-insert}
use guestjs.Bundle.Name.{is_within}
use guestjs.Bundle.Name.Laws.{is_within_trans}

abbrev pub DeniedNames : Type 0
DeniedNames = StrSet

unfoldable pub deny : Str → DeniedNames → DeniedNames
unfolding insert
deny name denied = insert name tt denied

unfoldable pub denies : DeniedNames → Str → Bool
unfolding is_within keys
denies denied name = any (λ d. is_within name d) (keys denied)

any_within_trans :
    (ds : List Str) (name inner : Str)
    → is_within inner name ≡ true
    → any (λ d. is_within name d) ds ≡ true
    → any (λ d. is_within inner d) ds ≡ true
any_within_trans [] name inner w h = cc
any_within_trans (d ∷ ds) name inner w h =
    ground (arith, is_within_trans inner name d w, any_within_trans ds name inner w)

-- A denied name denies everything within it, whatever else is denied.
pub denies-is_within :
    (denied : DeniedNames) (name inner : Str)
    → is_within inner name ≡ true
    → denies denied name ≡ true
    → denies denied inner ≡ true
unfolding denies
denies-is_within denied name inner w h = any_within_trans (keys denied) name inner w h

any_cons :
    (p : Str → Bool) (d : Str) (ds : List Str) (x : Str)
    → elem x (d ∷ ds) ≡ true
    → p x ≡ true
    → (elem x ds ≡ true → any p ds ≡ true)
    → any p (d ∷ ds) ≡ true
unfolding elem
any_cons p d ds x m q rest = elim (Bool-cases (str_eq d x)) [
  | inl e ↦ ground (arith, ap p (eq_of_str_eq d x e))
  | inr n ↦ ground arith
]

any-elem :
    (p : Str → Bool) (ds : List Str)
    → (any p ds ≡ true) ↔ ((d : Str) × (elem d ds ≡ true) × (p d ≡ true))
unfolding elem
any-elem p [] = (λ h. cc, λ h. cc (h.1))
any-elem p (d ∷ ds) = (
  λ h. elim (Bool-cases (p d)) [
    | inl e ↦ (d, ground (arith, str_eq_refl d), e)
    | inr n ↦ let (x, m, q) = (any-elem p ds).0 (ground arith) in (x, ground arith, q)
  ],
  λ h. any_cons p d ds h.0 h.1 h.2 (λ m. (any-elem p ds).1 (h.0, m, h.2)),
)

-- A name is denied exactly when it is within one of the denied names.
pub denies_iff :
    (denied : DeniedNames) (name : Str)
    → (denies denied name ≡ true)
      ↔ ((d : Str) × (elem d (keys denied) ≡ true) × (is_within name d ≡ true))
unfolding denies
denies_iff denied name = any-elem (λ d. is_within name d) (keys denied)

-- Denying a name denies what is within it, and keeps denying all that was denied.
pub denies-deny :
    (denied : DeniedNames) (d name : Str)
    → (denies (deny d denied) name ≡ true)
      ↔ ((is_within name d ≡ true) ⊎ (denies denied name ≡ true))
unfolding deny
denies-deny denied d name = (
  λ h.
      let (x, m, w) = (denies_iff (insert d tt denied) name).0 h in
      elim (or_eq_true (str_eq d x) (contains_key x denied) (inserted_elem x m)) [
        | inl e ↦ inl (rw (eq_of_str_eq d x e) w)
        | inr old ↦ inr ((denies_iff denied name).1 (x, elem-keys x denied ∙ old, w))
      ],
  λ h. elim h [
    | inl w ↦ (denies_iff (insert d tt denied) name).1 (d, kept d (rw (str_eq_refl d) refl), w)
    | inr old ↦
        let (x, m, w) = (denies_iff denied name).0 old in
        (denies_iff (insert d tt denied) name).1 (x, kept x (ground (arith, elem-keys x denied)), w)
  ],
)
  where
    kept :
        (x : Str)
        → (str_eq d x || contains_key x denied) ≡ true
        → elem x (keys (insert d tt denied)) ≡ true
    kept x h = elem-keys x (insert d tt denied) ∙ (contains_key-insert d x tt denied ∙ h)

    inserted_elem :
        (x : Str)
        → elem x (keys (insert d tt denied)) ≡ true
        → (str_eq d x || contains_key x denied) ≡ true
    inserted_elem x m =
        sym (contains_key-insert d x tt denied) ∙ (sym (elem-keys x (insert d tt denied)) ∙ m)
