-- ===== src/Marshal/Describe/Names.antt =====
-- A description (crates/guestjs-core/src/marshal/describe.rs) names each alternative once.
use guestjs.Prelude.{◌≡◌, sym, ap, ◌∙◌, true, ◌||◌, List, [], ◌∷◌, arith, Bool-cases, inl, inr}
use guestjs.Text.{Str, str_eq}
use guestjs.Text.Order.{eq_of_str_eq}
use guestjs.Dict.{elem}
use guestjs.Catalog.Native.{IsDistinct, IsDistinct-push, elem-push}
use guestjs.Marshal.Describe.{Expected, push_name, describe}

push_name-IsDistinct :
    (name : Str) (names : Expected) → IsDistinct names → IsDistinct (push_name name names)
unfolding push_name
push_name-IsDistinct name names d = elim (Bool-cases (elem name names)) [
  | inl e ↦ rw e d
  | inr n ↦ rw n (IsDistinct-push name names n d)
]

elem-push_name :
    (x name : Str) (names : Expected)
    → elem x (push_name name names) ≡ (elem x names || str_eq name x)
unfolding push_name
elem-push_name x name names = elim (Bool-cases (elem name names)) [
  | inl e ↦ elim (Bool-cases (str_eq name x)) [
    | inl same ↦
        let known : elem x names ≡ true =
          ap (λ k. elem k names) (sym (eq_of_str_eq name x same)) ∙ e in
        ground arith
    | inr other ↦ ground arith
  ]
  | inr n ↦ ground (arith, elem-push x name names)
]

-- A description never names an alternative twice, and it names what was there and what was
-- pushed, and nothing else.
pub describe_sound :
    (pushed : List Str) (names : Expected) (x : Str)
    → IsDistinct names
    → IsDistinct (describe pushed names)
      × (elem x (describe pushed names) ≡ (elem x names || elem x pushed))
unfolding describe elem
describe_sound [] names x d = (d, ground arith)
describe_sound (name ∷ rest) names x d =
    let (distinct, same) =
      describe_sound rest (push_name name names) x (push_name-IsDistinct name names d) in
    (distinct, ground (arith, same, elem-push_name x name names))
