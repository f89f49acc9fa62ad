-- ===== src/Quickjs/Loans/Entries.antt =====
-- The entries of the loans of crates/guestjs-quickjs/src/engine.rs as a map.
use guestjs.Prelude.{
  ◌≡◌, refl, sym, ap, ◌∙◌, true, false, none, some, [], ◌∷◌, ◌==◌, if◌then◌else◌, arith, Bool-cases,
  inl, inr, and_eq_true,
}
use guestjs.Text.{str_eq}
use guestjs.Text.Order.{eq_of_str_eq, str_eq_refl}
use guestjs.Quickjs.Loans.{Loan, Storage, same_storage, Loans, get, remove, insert}

pub same_storage_refl : (a : Storage) → same_storage a a ≡ true
unfolding same_storage
same_storage_refl a = ground (arith, str_eq_refl a.name)

pub eq_of_same_storage : (a b : Storage) → same_storage a b ≡ true → a ≡ b
unfolding same_storage
eq_of_same_storage a b h =
    let (names, addresses) = and_eq_true (str_eq a.name b.name) (a.address == b.address) h in
    let address : a.address ≡ b.address = ground arith in
    ap (λ n. record { name = n; address = a.address }) (eq_of_str_eq a.name b.name names)
    ∙ ap (λ n. record { name = b.name; address = n }) address

pub get-head :
    (k s : Storage) (loan : Loan) (entries : Loans)
    → get k ((s, loan) ∷ entries) ≡ (if same_storage k s then some loan else get k entries)
unfolding get
get-head k s loan entries = refl

pub get-remove_same : (s : Storage) (entries : Loans) → get s (remove s entries) ≡ none
unfolding get remove
get-remove_same s [] = refl
get-remove_same s ((other, loan) ∷ entries) = elim (Bool-cases (same_storage s other)) [
  | inl e ↦ ground (arith, e, get-remove_same s entries)
  | inr e ↦ ground (arith, e, get-remove_same s entries, get-head s other loan (remove s entries))
]

pub get-remove_other :
    (k s : Storage) (entries : Loans)
    → same_storage k s ≡ false
    → get k (remove s entries) ≡ get k entries
unfolding get remove
get-remove_other k s [] n = refl
get-remove_other k s ((other, loan) ∷ entries) n = elim (Bool-cases (same_storage s other)) [
  | inl e ↦
      let apart : same_storage k other ≡ false =
        ap (same_storage k) (sym (eq_of_same_storage s other e)) ∙ n in
      ground (arith, e, apart, get-remove_other k s entries n)
  | inr e ↦
      ground (arith, e, get-remove_other k s entries n, get-head k other loan (remove s entries))
]

pub get-insert_same :
    (s : Storage) (loan : Loan) (entries : Loans) → get s (insert s loan entries) ≡ some loan
unfolding insert
get-insert_same s loan entries =
    get-head s s loan (remove s entries)
    ∙ ap (λ b. if b then some loan else get s (remove s entries)) (same_storage_refl s)

pub get-insert_other :
    (k s : Storage) (loan : Loan) (entries : Loans)
    → same_storage k s ≡ false
    → get k (insert s loan entries) ≡ get k entries
unfolding insert
get-insert_other k s loan entries n =
    get-head k s loan (remove s entries)
    ∙ (ap (λ b. if b then some loan else get k (remove s entries)) n
        ∙ get-remove_other k s entries n)

pub get-remove :
    (k s : Storage) (entries : Loans)
    → get k (remove s entries) ≡ (if same_storage k s then none else get k entries)
get-remove k s entries = elim (Bool-cases (same_storage k s)) [
  | inl e ↦
      ap (λ x. get x (remove s entries)) (eq_of_same_storage k s e)
      ∙ (get-remove_same s entries ∙ ap (λ b. if b then none else get k entries) (sym e))
  | inr n ↦ get-remove_other k s entries n ∙ ap (λ b. if b then none else get k entries) (sym n)
]

pub get-insert :
    (k s : Storage) (loan : Loan) (entries : Loans)
    → get k (insert s loan entries) ≡ (if same_storage k s then some loan else get k entries)
get-insert k s loan entries = elim (Bool-cases (same_storage k s)) [
  | inl e ↦
      ap (λ x. get x (insert s loan entries)) (eq_of_same_storage k s e)
      ∙ (get-insert_same s loan entries ∙ ap (λ b. if b then some loan else get k entries) (sym e))
  | inr n ↦
      get-insert_other k s loan entries n ∙ ap (λ b. if b then some loan else get k entries) (sym n)
]
