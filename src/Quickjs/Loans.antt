-- ===== src/Quickjs/Loans.antt =====
-- `Loans` of crates/guestjs-quickjs/src/engine.rs: which storages of the guest are borrowed by the
-- host. The hash map is an association list, in an order that no theorem relies on. A guard is the
-- storage that it releases when it is dropped.
pub mod Entries
pub mod Standing
pub mod Balance
pub mod Granting
use guestjs.Prelude.{
  ℕ, Bool, true, false, Option, none, some, List, [], ◌∷◌, ◌==◌, ◌+◌, ◌-◌, ltb, if◌then◌else◌, ◌&&◌,
}
use guestjs.Text.{Str, str_eq}
use guestjs.Errors.{Result, ok, err, borrow, BorrowKind, shared, exclusive}

pub data Loan : Type 0 where
  shared_loan : ℕ → Loan
  exclusive_loan : Loan

unfoldable pub loan_kind : Loan → BorrowKind
loan_kind (shared_loan count) = shared
loan_kind exclusive_loan = exclusive

pub record Storage : Type 0 where
  pub name : Str
  pub address : ℕ

-- the derived `PartialEq`
unfoldable pub same_storage : Storage → Storage → Bool
same_storage a b = str_eq a.name b.name && a.address == b.address

abbrev pub Loans : Type 0
Loans = List (Storage × Loan)

unfoldable pub get : Storage → Loans → Option Loan
unfolding same_storage
get storage [] = none
get storage (entry ∷ entries) =
    if same_storage storage entry.0 then some entry.1 else get storage entries

unfoldable pub remove : Storage → Loans → Loans
unfolding same_storage
remove storage [] = []
remove storage (entry ∷ entries) =
    let rest = remove storage entries in if same_storage storage entry.0 then rest else entry ∷ rest

unfoldable pub insert : Storage → Loan → Loans → Loans
unfolding remove
insert storage loan entries = (storage, loan) ∷ remove storage entries

-- the loan that is written down for a request, beside the one that is there
unfoldable pub combine : Option Loan → BorrowKind → Str → Result Loan
unfolding loan_kind
combine none shared name = ok (shared_loan 1)
combine none exclusive name = ok exclusive_loan
combine (some (shared_loan count)) shared name = ok (shared_loan (count + 1))
combine (some loan) kind name = err (borrow (loan_kind loan) name)

unfoldable pub lent : Storage → Result Loan → Loans → Result Storage × Loans
unfolding insert
lent storage (ok loan) entries = (ok storage, insert storage loan entries)
lent storage (err e) entries = (err e, entries)

unfoldable pub lend : Storage → BorrowKind → Loans → Result Storage × Loans
unfolding lent combine get
lend storage kind entries = lent storage (combine (get storage entries) kind storage.name) entries

unfoldable pub settled : Loans → Result (Unit {0})
unfolding loan_kind
settled [] = ok tt
settled (entry ∷ entries) = err (borrow (loan_kind entry.1) entry.0.name)

unfoldable pub release_from : Option Loan → Storage → Loans → Loans
unfolding insert
release_from (some (shared_loan count)) storage entries =
    if ltb 1 count then insert storage (shared_loan (count - 1)) entries else remove storage entries
release_from _ storage entries = remove storage entries

-- what the drop of a guard does
unfoldable pub release : Storage → Loans → Loans
unfolding release_from get
release storage entries = release_from (get storage entries) storage entries
