-- ===== src/Quickjs/Loans/Standing.antt =====
-- What an entry of the loans of crates/guestjs-quickjs/src/engine.rs stands for.
use guestjs.Prelude.{
  ℕ, ◌≡◌, sym, Option, none, some, List, [], ◌∷◌, ◌+◌, ◌-◌, ◌<◌, ltb, if◌then◌else◌, arith,
  Bool-cases, inl, inr, subst,
}
use guestjs.Text.{Str}
use guestjs.Errors.{ok, BorrowKind, shared, exclusive}
use guestjs.Quickjs.Loans.{Loan, shared_loan, exclusive_loan, Storage, same_storage, combine}

-- one guard that is alive: what it borrows, and how
abbrev pub Guard : Type 0
Guard = Storage × BorrowKind

abbrev pub of_kind : BorrowKind → BorrowKind → ℕ
of_kind shared shared = 1
of_kind exclusive exclusive = 1
of_kind _ _ = 0

-- how many of the guards of a kind borrow a storage
abbrev pub count : BorrowKind → Storage → List Guard → ℕ
count kind k [] = 0
count kind k (guard ∷ guards) =
    let rest = count kind k guards in
    if same_storage k guard.0 then of_kind kind guard.1 + rest else rest

-- An entry stands for the guards of its storage: any number of shared ones, or one exclusive one.
abbrev pub StandsFor : Option Loan → ℕ → ℕ → Type 0
StandsFor none readers writers = (readers ≡ 0) × (writers ≡ 0)
StandsFor (some (shared_loan n)) readers writers = (0 < n) × (readers ≡ n) × (writers ≡ 0)
StandsFor (some exclusive_loan) readers writers = (readers ≡ 0) × (writers ≡ 1)

pub combine-StandsFor :
    (o : Option Loan) (kind : BorrowKind) (name : Str) (loan : Loan) (readers writers : ℕ)
    → combine o kind name ≡ ok loan
    → StandsFor o readers writers
    → StandsFor (some loan) (of_kind shared kind + readers) (of_kind exclusive kind + writers)
unfolding combine
combine-StandsFor none shared name loan readers writers h v =
    let made : shared_loan 1 ≡ loan = ground arith in
    subst (λ x. StandsFor (some x) (1 + readers) (0 + writers)) made
      (omega arith, omega (arith, v.0), omega (arith, v.1))
combine-StandsFor none exclusive name loan readers writers h v =
    let made : exclusive_loan ≡ loan = ground arith in
    subst (λ x. StandsFor (some x) (0 + readers) (1 + writers)) made
      (omega (arith, v.0), omega (arith, v.1))
combine-StandsFor (some (shared_loan n)) shared name loan readers writers h v =
    let made : shared_loan (n + 1) ≡ loan = ground arith in
    subst (λ x. StandsFor (some x) (1 + readers) (0 + writers)) made
      (omega arith, omega (arith, v.1), omega (arith, v.2))
combine-StandsFor (some (shared_loan n)) exclusive name loan readers writers h v = cc
combine-StandsFor (some exclusive_loan) kind name loan readers writers h v = cc

-- what is left of an entry after a release
abbrev pub left_of : Option Loan → Option Loan
left_of (some (shared_loan n)) = if ltb 1 n then some (shared_loan (n - 1)) else none
left_of _ = none

pub left_of-StandsFor :
    (o : Option Loan) (kind : BorrowKind) (readers writers : ℕ)
    → StandsFor o (of_kind shared kind + readers) (of_kind exclusive kind + writers)
    → StandsFor (left_of o) readers writers
left_of-StandsFor none shared readers writers v = absurd (omega (arith, v.0))
left_of-StandsFor none exclusive readers writers v = absurd (omega (arith, v.1))
left_of-StandsFor (some (shared_loan n)) shared readers writers v = elim (Bool-cases (ltb 1 n)) [
  | inl e ↦
      subst (λ b. StandsFor (if b then some (shared_loan (n - 1)) else none) readers writers)
        (sym e) (ground (arith, v), ground (arith, v), ground (arith, v))
  | inr e ↦
      subst (λ b. StandsFor (if b then some (shared_loan (n - 1)) else none) readers writers)
        (sym e) (ground (arith, v), ground (arith, v))
]
left_of-StandsFor (some (shared_loan n)) exclusive readers writers v = absurd (omega (arith, v.2))
left_of-StandsFor (some exclusive_loan) shared readers writers v = absurd (omega (arith, v.0))
left_of-StandsFor (some exclusive_loan) exclusive readers writers v =
    (omega (arith, v.0), omega (arith, v.1))

pub StandsFor-subst :
    (o p : Option Loan) (readers writers readers_too writers_too : ℕ)
    → o ≡ p
    → readers ≡ readers_too
    → writers ≡ writers_too
    → StandsFor o readers writers
    → StandsFor p readers_too writers_too
StandsFor-subst o p readers writers readers_too writers_too e f g v =
    subst (λ x. StandsFor p readers_too x) g
      (subst (λ x. StandsFor p x writers) f (subst (λ x. StandsFor x readers writers) e v))
