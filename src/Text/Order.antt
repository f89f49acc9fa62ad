-- ===== src/Text/Order.antt =====
-- Equality and order of strings. `String`'s `Ord` compares UTF-8 bytes, which orders as the code
-- points do.
use guestjs.Prelude.{
  ◌≡◌, refl, ◌↔◌, ◌≢◌, ◌⊎◌, inl, inr, true, false, [], ◌∷◌, compare, Ordering, arith, Bool-cases,
}
use guestjs.Text.{Str, str_eq}

pub eq_of_str_eq : (s t : Str) → str_eq s t ≡ true → s ≡ t
unfolding str_eq
eq_of_str_eq [] [] h = refl
eq_of_str_eq [] (_ ∷ _) h = cc
eq_of_str_eq (_ ∷ _) [] h = cc
eq_of_str_eq (x ∷ s) (y ∷ t) h = ground (arith, eq_of_str_eq s t)

pub str_eq_refl : (s : Str) → str_eq s s ≡ true
unfolding str_eq
str_eq_refl [] = refl
str_eq_refl (x ∷ s) = ground (arith, str_eq_refl s)

pub str_eq_iff : (s t : Str) → (str_eq s t ≡ true) ↔ (s ≡ t)
str_eq_iff s t = (eq_of_str_eq s t, λ e. rw e (str_eq_refl t))

pub str_eq_ne : (s t : Str) → s ≢ t → str_eq s t ≡ false
str_eq_ne s t h = ground (arith, str_eq_iff s t)

pub str_eq_comm : (s t : Str) → str_eq s t ≡ str_eq t s
str_eq_comm s t = ground (arith, str_eq_iff s t, str_eq_iff t s)

pub str_eq_dec : (s t : Str) → (s ≡ t) ⊎ (s ≢ t)
str_eq_dec s t = elim (Bool-cases (str_eq s t)) [
  | inl e ↦ inl (eq_of_str_eq s t e)
  | inr n ↦ inr (λ e. ground (arith, str_eq_iff s t))
]

unfoldable pub cmp : Str → Str → Ordering
cmp [] [] = Ordering.eq
cmp [] (_ ∷ _) = Ordering.lt
cmp (_ ∷ _) [] = Ordering.gt
cmp (x ∷ s) (y ∷ t) =
    let rest = cmp s t in
    elim (compare x y) [
      | Ordering.lt ↦ Ordering.lt
      | Ordering.eq ↦ rest
      | Ordering.gt ↦ Ordering.gt
    ]

pub eq_of_cmp : (s t : Str) → cmp s t ≡ Ordering.eq → s ≡ t
unfolding cmp
eq_of_cmp [] [] h = refl
eq_of_cmp [] (_ ∷ _) h = cc
eq_of_cmp (_ ∷ _) [] h = cc
eq_of_cmp (x ∷ s) (y ∷ t) h = ground (arith, eq_of_cmp s t)

pub cmp_refl : (s : Str) → cmp s s ≡ Ordering.eq
unfolding cmp
cmp_refl [] = refl
cmp_refl (x ∷ s) = ground (arith, cmp_refl s)

pub lt_of_gt : (s t : Str) → cmp s t ≡ Ordering.gt → cmp t s ≡ Ordering.lt
unfolding cmp
lt_of_gt [] [] h = cc
lt_of_gt [] (_ ∷ _) h = cc
lt_of_gt (_ ∷ _) [] h = refl
lt_of_gt (x ∷ s) (y ∷ t) h = ground (arith, lt_of_gt s t)

pub lt_trans : (r s t : Str) → cmp r s ≡ Ordering.lt → cmp s t ≡ Ordering.lt → cmp r t ≡ Ordering.lt
unfolding cmp
lt_trans [] [] t h k = cc
lt_trans [] (_ ∷ _) [] h k = cc
lt_trans [] (_ ∷ _) (_ ∷ _) h k = refl
lt_trans (_ ∷ _) [] t h k = cc
lt_trans (x ∷ r) (y ∷ s) [] h k = cc
lt_trans (x ∷ r) (y ∷ s) (z ∷ t) h k = ground (arith, lt_trans r s t)

-- The test that `BTreeMap` and `==` share.
pub str_eq-cmp : (s t : Str) → str_eq s t ≡ true → cmp s t ≡ Ordering.eq
str_eq-cmp s t h = rw (eq_of_str_eq s t h) (cmp_refl t)
