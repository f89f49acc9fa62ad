-- ===== src/Quickjs/Loans/Balance.antt =====
-- The loans of crates/guestjs-quickjs/src/engine.rs against the guards that are alive.
use guestjs.Prelude.{
  ◌≡◌, refl, sym, ap, ◌∙◌, true, false, Option, none, some, List, [], ◌∷◌, ◌+◌, ◌-◌, if◌then◌else◌,
  arith, Bool-cases, inl, inr, subst,
}
use guestjs.Errors.{Result, ok, err, BorrowKind, shared, exclusive}
use guestjs.Quickjs.Loans.{
  Loan, shared_loan, exclusive_loan, Storage, same_storage, Loans, get, insert, combine, lent, lend,
  release_from, release,
}
use guestjs.Quickjs.Loans.Standing.{
  Guard, of_kind, count, StandsFor, combine-StandsFor, left_of, left_of-StandsFor, StandsFor-subst,
}
use guestjs.Quickjs.Loans.Entries.{eq_of_same_storage, get-remove, get-insert}

pub record IsBalanced (entries : Loans) (guards : List Guard) : Type 0 where
  pub stands :
      (k : Storage) → StandsFor (get k entries) (count shared k guards) (count exclusive k guards)

-- The guard is dropped from the list.
pub data Dropped (guard : Guard) : List Guard → List Guard → Type 0 where
  first_one : (guards : List Guard) → Dropped guard (guard ∷ guards) guards
  later_one :
      {guards left : List Guard} (other : Guard)
      → Dropped guard guards left
      → Dropped guard (other ∷ guards) (other ∷ left)

-- The loans of an engine, with the guards that are alive.
pub data Reachable : Loans → List Guard → Type 0 where
  no_loans : Reachable [] []
  lends :
      {entries after : Loans} {guards : List Guard} {storage : Storage} (kind : BorrowKind)
      → Reachable entries guards
      → lend storage kind entries ≡ (ok storage, after)
      → Reachable after ((storage, kind) ∷ guards)
  drops :
      {entries : Loans} {guards left : List Guard} (guard : Guard)
      → Reachable entries guards
      → Dropped guard guards left
      → Reachable (release guard.0 entries) left

lent_sound :
    (storage : Storage) (r : Result Loan) (entries after : Loans)
    → lent storage r entries ≡ (ok storage, after)
    → (loan : Loan) × (r ≡ ok loan) × (after ≡ insert storage loan entries)
unfolding lent
lent_sound storage (ok loan) entries after h = (loan, refl, sym (ap (λ x. x.1) h))
lent_sound storage (err e) entries after h = absurd (ground arith)

get-release_from :
    (k storage : Storage) (o : Option Loan) (entries : Loans)
    → get k (release_from o storage entries)
      ≡ (if same_storage k storage then left_of o else get k entries)
unfolding release_from
get-release_from k storage none entries = get-remove k storage entries
get-release_from k storage (some exclusive_loan) entries = get-remove k storage entries
get-release_from k storage (some (shared_loan n)) entries =
    ground (arith, get-remove k storage entries, get-insert k storage (shared_loan (n - 1)) entries)

-- the counts with one more guard, on its storage and on any other
pub count-same :
    (kind : BorrowKind) (k : Storage) (guard : Guard) (guards : List Guard)
    → same_storage k guard.0 ≡ true
    → count kind k (guard ∷ guards) ≡ of_kind kind guard.1 + count kind k guards
count-same kind k guard guards e =
    ap (λ b. if b then of_kind kind guard.1 + count kind k guards else count kind k guards) e

count-other :
    (kind : BorrowKind) (k : Storage) (guard : Guard) (guards : List Guard)
    → same_storage k guard.0 ≡ false
    → count kind k (guard ∷ guards) ≡ count kind k guards
count-other kind k guard guards e =
    ap (λ b. if b then of_kind kind guard.1 + count kind k guards else count kind k guards) e

insert-IsBalanced :
    (entries : Loans) (guards : List Guard) (storage : Storage) (kind : BorrowKind) (loan : Loan)
    → IsBalanced entries guards
    → combine (get storage entries) kind storage.name ≡ ok loan
    → IsBalanced (insert storage loan entries) ((storage, kind) ∷ guards)
insert-IsBalanced entries guards storage kind loan v h = record {
  stands = λ k. elim (Bool-cases (same_storage k storage)) [
    | inl e ↦
        let here : get storage entries ≡ get k entries =
          ap (λ x. get x entries) (sym (eq_of_same_storage k storage e)) in
        StandsFor-subst (some loan) (get k (insert storage loan entries)) _ _ _ _
          (sym (
            get-insert k storage loan entries ∙ ap (λ b. if b then some loan else get k entries) e))
          (sym (count-same shared k (storage, kind) guards e))
          (sym (count-same exclusive k (storage, kind) guards e))
          (combine-StandsFor (get k entries) kind storage.name loan (count shared k guards)
            (count exclusive k guards) (ap (λ o. combine o kind storage.name) (sym here) ∙ h)
            (v.stands k))
    | inr n ↦
        StandsFor-subst (get k entries) (get k (insert storage loan entries)) _ _ _ _
          (sym (
            get-insert k storage loan entries ∙ ap (λ b. if b then some loan else get k entries) n))
          (sym (count-other shared k (storage, kind) guards n))
          (sym (count-other exclusive k (storage, kind) guards n)) (v.stands k)
  ];
}

count-Dropped :
    (kind : BorrowKind) (k : Storage) (guard : Guard) (guards left : List Guard)
    → Dropped guard guards left
    → count kind k guards ≡ count kind k (guard ∷ left)
count-Dropped kind k guard _ _ (first_one guards) = refl
count-Dropped kind k guard _ _ (later_one {guards = guards} {left = left} other rest) =
    ground (arith, count-Dropped kind k guard guards left rest)

release-IsBalanced :
    (entries : Loans) (guard : Guard) (guards left : List Guard)
    → IsBalanced entries guards
    → Dropped guard guards left
    → IsBalanced (release guard.0 entries) left
unfolding release
release-IsBalanced entries guard guards left v d = record {
  stands = λ k.
      let readers = count-Dropped shared k guard guards left d in
      let writers = count-Dropped exclusive k guard guards left d in
      let now = get-release_from k guard.0 (get guard.0 entries) entries in
      elim (Bool-cases (same_storage k guard.0)) [
        | inl e ↦
            let here : get guard.0 entries ≡ get k entries =
              ap (λ x. get x entries) (sym (eq_of_same_storage k guard.0 e)) in
            StandsFor-subst (left_of (get k entries))
              (get k (release_from (get guard.0 entries) guard.0 entries)) _ _ _ _
              (ap left_of (sym here)
                ∙ sym
                    (now ∙ ap (λ b. if b then left_of (get guard.0 entries) else get k entries) e))
              refl refl
              (left_of-StandsFor (get k entries) guard.1 (count shared k left)
                (count exclusive k left)
                (StandsFor-subst (get k entries) (get k entries) _ _ _ _ refl
                  (readers ∙ count-same shared k guard left e)
                  (writers ∙ count-same exclusive k guard left e) (v.stands k)))
        | inr n ↦
            StandsFor-subst (get k entries)
              (get k (release_from (get guard.0 entries) guard.0 entries)) _ _ _ _
              (sym (now ∙ ap (λ b. if b then left_of (get guard.0 entries) else get k entries) n))
              (readers ∙ count-other shared k guard left n)
              (writers ∙ count-other exclusive k guard left n) (v.stands k)
      ];
}

-- However loans are granted and guards dropped: the entry of every storage stands for the guards
-- that are alive on it, either any number of shared ones, which it counts, or one exclusive one
-- alone; and without an entry there is no guard.
pub Reachable-IsBalanced :
    (entries : Loans) (guards : List Guard) → Reachable entries guards → IsBalanced entries guards
unfolding lend get
Reachable-IsBalanced _ _ no_loans = record { stands = λ k. (refl, refl) }
Reachable-IsBalanced after _
      (lends {entries = entries} {guards = guards} {storage = storage} kind reached h) =
    let (loan, made, e) =
      lent_sound storage (combine (get storage entries) kind storage.name) entries after h in
    subst (λ x. IsBalanced x ((storage, kind) ∷ guards)) (sym e)
      (insert-IsBalanced entries guards storage kind loan
        (Reachable-IsBalanced entries guards reached) made)
Reachable-IsBalanced _ left (drops {entries = entries} {guards = guards} guard reached d) =
    release-IsBalanced entries guard guards left (Reachable-IsBalanced entries guards reached) d
