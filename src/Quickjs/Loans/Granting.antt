-- ===== src/Quickjs/Loans/Granting.antt =====
-- When crates/guestjs-quickjs/src/engine.rs grants a loan, and when its loans are settled.
use guestjs.Prelude.{
  ℕ, ◌≡◌, refl, ap, ◌∙◌, Option, none, some, List, [], ◌∷◌, ◌<◌, if◌then◌else◌, arith, ◌⊎◌, inl,
  inr, ◌↔◌, subst,
}
use guestjs.Text.{Str}
use guestjs.Errors.{Result, ok, err, borrow, BorrowKind, shared, exclusive}
use guestjs.Quickjs.Loans.{
  Loan, shared_loan, exclusive_loan, Storage, Loans, get, insert, combine, lent, lend, settled,
  loan_kind,
}
use guestjs.Quickjs.Loans.Entries.{same_storage_refl, get-head}
use guestjs.Quickjs.Loans.Standing.{Guard, count, StandsFor, StandsFor-subst}
use guestjs.Quickjs.Loans.Balance.{count-same, IsBalanced, Reachable, Reachable-IsBalanced}

-- No guard stands in the way of a loan of this kind.
abbrev pub IsFree : BorrowKind → ℕ → ℕ → Type 0
IsFree shared readers writers = writers ≡ 0
IsFree exclusive readers writers = (readers ≡ 0) × (writers ≡ 0)

-- The kind of the guards that stand in the way of a loan of this kind.
abbrev pub InTheWay : BorrowKind → BorrowKind → ℕ → ℕ → Type 0
InTheWay shared shared readers writers = ⊥
InTheWay exclusive shared readers writers = 0 < readers
InTheWay _ exclusive readers writers = 0 < writers

abbrev Decides : BorrowKind → Str → ℕ → ℕ → Result Loan → Type 0
Decides kind name readers writers (ok loan) = IsFree kind readers writers
Decides kind name readers writers (err e) =
    (held : BorrowKind) × (e ≡ borrow held name) × InTheWay kind held readers writers

combine-Decides :
    (o : Option Loan) (kind : BorrowKind) (name : Str) (readers writers : ℕ)
    → StandsFor o readers writers
    → Decides kind name readers writers (combine o kind name)
unfolding combine loan_kind
combine-Decides none shared name readers writers v = v.1
combine-Decides none exclusive name readers writers v = v
combine-Decides (some (shared_loan n)) shared name readers writers v = v.2
combine-Decides (some (shared_loan n)) exclusive name readers writers v =
    (shared, refl, omega (arith, v.0, v.1))
combine-Decides (some exclusive_loan) shared name readers writers v =
    (exclusive, refl, omega (arith, v.1))
combine-Decides (some exclusive_loan) exclusive name readers writers v =
    (exclusive, refl, omega (arith, v.1))

-- The answer to a request: granted, where no guard stands in the way, or refused with the kind of
-- one that does, and then nothing changes.
pub data Answered (storage : Storage) (kind : BorrowKind) (entries : Loans) (guards : List Guard)
    : Type 0 where
  granted :
      (after : Loans)
      → lend storage kind entries ≡ (ok storage, after)
      → IsFree kind (count shared storage guards) (count exclusive storage guards)
      → Answered storage kind entries guards
  refused :
      (held : BorrowKind)
      → lend storage kind entries ≡ (err (borrow held storage.name), entries)
      → InTheWay kind held (count shared storage guards) (count exclusive storage guards)
      → Answered storage kind entries guards

answered :
    (storage : Storage) (kind : BorrowKind) (entries : Loans) (guards : List Guard)
    (r : Result Loan)
    → lend storage kind entries ≡ lent storage r entries
    → Decides kind storage.name (count shared storage guards) (count exclusive storage guards) r
    → Answered storage kind entries guards
unfolding lent
answered storage kind entries guards (ok loan) e d = granted (insert storage loan entries) e d
answered storage kind entries guards (err x) e (held, same, way) =
    refused held (e ∙ ap (λ y. (err y, entries)) same) way

-- However the loans came about: a shared loan is granted if there is no exclusive guard on the
-- storage, an exclusive one if there is no guard on it; otherwise the request is refused with the
-- kind of a guard that is alive on it, and the loans stay as they are.
pub lend-Answered :
    (storage : Storage) (kind : BorrowKind) (entries : Loans) (guards : List Guard)
    → Reachable entries guards
    → Answered storage kind entries guards
unfolding lend
lend-Answered storage kind entries guards reached =
    answered storage kind entries guards (combine (get storage entries) kind storage.name) refl (
      combine-Decides (get storage entries) kind storage.name _ _
        ((Reachable-IsBalanced entries guards reached).stands storage))

alive :
    (guard : Guard) (guards : List Guard)
    → (0 < count shared guard.0 (guard ∷ guards)) ⊎ (0 < count exclusive guard.0 (guard ∷ guards))
alive (storage, shared) guards =
    inl (
      omega (arith, count-same shared storage (storage, shared) guards (same_storage_refl storage)))
alive (storage, exclusive) guards = inr (
    omega
      (arith, count-same exclusive storage (storage, exclusive) guards (same_storage_refl storage)))

some_loan :
    (loan : Loan) (readers writers : ℕ)
    → StandsFor (some loan) readers writers
    → (0 < readers) ⊎ (0 < writers)
some_loan (shared_loan n) readers writers v = inl (omega (arith, v.0, v.1))
some_loan exclusive_loan readers writers v = inr (omega (arith, v.1))

no_entries : (entries : Loans) → IsBalanced entries [] → settled entries ≡ ok tt
unfolding settled
no_entries [] v = refl
no_entries ((storage, loan) ∷ entries) v =
    let head : get storage ((storage, loan) ∷ entries) ≡ some loan =
      get-head storage storage loan entries
      ∙ ap (λ b. if b then some loan else get storage entries) (same_storage_refl storage) in
    elim (some_loan loan 0 0 (
      StandsFor-subst (get storage ((storage, loan) ∷ entries)) (some loan) _ _ _ _ head refl refl
        (v.stands storage))) [
          | inl l ↦ absurd (omega (arith, l))
          | inr l ↦ absurd (omega (arith, l))
        ]

no_guards :
    (entries : Loans) (guards : List Guard)
    → IsBalanced entries guards
    → settled entries ≡ ok tt
    → guards ≡ []
unfolding settled get
no_guards entries [] v h = refl
no_guards (entry ∷ entries) (guard ∷ guards) v h = cc
no_guards [] (guard ∷ guards) v h =
    let (readers, writers) = v.stands guard.0 in
    elim (alive guard guards) [
      | inl l ↦ absurd (omega (arith, l, readers))
      | inr l ↦ absurd (omega (arith, l, writers))
    ]

-- However the loans came about: they count as settled exactly if no guard is alive.
pub settled_iff :
    (entries : Loans) (guards : List Guard)
    → Reachable entries guards
    → (settled entries ≡ ok tt) ↔ (guards ≡ [])
settled_iff entries guards reached =
    let v = Reachable-IsBalanced entries guards reached in
    (no_guards entries guards v, λ e. no_entries entries (subst (λ x. IsBalanced entries x) e v))
