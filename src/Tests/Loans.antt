-- ===== src/Tests/Loans.antt =====
-- Runs of the loans and the entries of crates/guestjs-quickjs/src/engine.rs.
use guestjs.Prelude.{ℕ, Bool, true, false, some, refl, List, [], ◌∷◌}
use guestjs.Errors.{shared, exclusive}
use guestjs.Quickjs.Loans.{Storage, Loans, shared_loan, exclusive_loan, lend, release}
use guestjs.Quickjs.Entries.{Lock, Engine, Operation, enter_engine}
use guestjs.Quickjs.Entries.Nesting.{
  IsLock, IsSafe, Returned, enter_engine-Returned, enter_engine-IsSafe,
}
use guestjs.Quickjs.Loans.Standing.{Guard}
use guestjs.Quickjs.Loans.Balance.{
  Reachable, no_loans, lends, drops, first_one, IsBalanced, Reachable-IsBalanced,
}
use guestjs.Quickjs.Loans.Granting.{Answered, lend-Answered}

abbrev first_buffer : Storage
first_buffer = record { name = []; address = 1 }

abbrev second_buffer : Storage
second_buffer = record { name = []; address = 2 }

abbrev two_guards : List Guard
two_guards = (first_buffer, shared) ∷ ((first_buffer, shared) ∷ [])

abbrev shared_twice : Loans
shared_twice = (first_buffer, shared_loan 2) ∷ []

-- two shared loans of one buffer and an exclusive one of another, which is dropped again
lent_twice : Reachable shared_twice two_guards
unfolding lend release guestjs.Text.str_eq
lent_twice =
    drops {entries = (second_buffer, exclusive_loan) ∷ shared_twice} (second_buffer, exclusive)
      (lends {entries = shared_twice} {storage = second_buffer} exclusive
        (lends {entries = (first_buffer, shared_loan 1) ∷ []} {storage = first_buffer} shared
          (lends {storage = first_buffer} shared no_loans refl) refl)
        refl)
      (first_one two_guards)

Reachable-IsBalanced_example : IsBalanced shared_twice two_guards
Reachable-IsBalanced_example = Reachable-IsBalanced shared_twice two_guards lent_twice

lend-Answered_example : Answered first_buffer exclusive shared_twice two_guards
lend-Answered_example = lend-Answered first_buffer exclusive shared_twice two_guards lent_twice

-- a runtime that is whether its lock is held
abbrev flag : Lock Bool
flag = record { is_held = λ b. b; acquire = λ b. true; give_back = λ b. false }

flag-IsLock : IsLock flag
flag-IsLock = record { acquired = λ b. refl; free = λ b. refl }

abbrev count_depth : Operation Bool ℕ
count_depth e = some (e.depth, e)

count_depth-IsSafe : IsSafe flag count_depth
count_depth-IsSafe e v inside = record {
  value = e.depth;
  after = e;
  returned = refl;
  depth = refl;
  consistent = v;
}

abbrev idle_engine : Engine Bool
idle_engine = record { depth = 0; runtime = false }

enter_engine-Returned_example :
    Returned flag idle_engine (enter_engine flag (enter_engine flag count_depth) idle_engine)
unfolding guestjs.Quickjs.Entries.is_entered
enter_engine-Returned_example =
    enter_engine-Returned flag (enter_engine flag count_depth) idle_engine flag-IsLock
      (enter_engine-IsSafe flag count_depth flag-IsLock count_depth-IsSafe) refl
