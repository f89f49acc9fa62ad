-- ===== src/Tests/Guests.antt =====
-- Runs of crates/guestjs-core/src/policy.rs and src/guest/ of that crate.
use guestjs.Prelude.{ℕ, ◌≡◌, refl, ◌+◌, true, false, Option, none, some, List, [], ◌∷◌, inr}
use guestjs.Errors.{err, timeout, interrupted}
use guestjs.Policy.{
  World, ExecutionPolicy, ArmedPolicy, new_policy, with_timeout, with_cancellation, arm, cancel,
  is_expired, is_due, due_error,
}
use guestjs.Policy.Runs.{Event, passes, cancels, happen_all, due_error-happen_all}
use guestjs.Guest.{GuestState, Machine, Action, enter, close}
use guestjs.Guest.Balance.{IsBalanced, Keeps, enter-Keeps, close-Keeps}
use guestjs.Guest.Entry.{enter-interrupted}

-- a platform on which every deadline can be represented
abbrev exact_add : ℕ → ℕ → Option ℕ
exact_add t d = some (t + d)

abbrev start : World
start = record { now = 10; signals = λ s. false }

abbrev later : World
later = record { now = 40; signals = λ s. false }

abbrev limited : ExecutionPolicy
limited = record { time_limit = some 20; cancellation = some 0 }

abbrev armed : ArmedPolicy
armed = record { deadline = some 30; cancellation = some 0 }

abbrev in_time : List Event
in_time = passes 15 ∷ (cancels 0 ∷ (passes 5 ∷ []))

-- 15 pass, the signal is raised, and 5 more pass: it is the timeout's turn
due_error-happen_all_example :
    (due_error (arm exact_add limited start) (happen_all in_time start) ≡ some timeout)
    × (is_due (arm exact_add limited start) (happen_all in_time start) ≡ true)
due_error-happen_all_example =
    due_error-happen_all exact_add (λ t d. inr refl) limited in_time start

abbrev idle_guest : GuestState
idle_guest = record {
  id = 1;
  context_id = 4;
  closed = false;
  activity = record { policy = limited; depth = 0; armed = none };
}

abbrev idle : Machine ℕ
idle = record { heap = 0; world = start; guest = idle_guest }

-- a closure that enters the guest again, closes it there, and fails
closing : Action ℕ ℕ
closing m = (err interrupted, close m)

nested : ℕ → Action ℕ ℕ
unfolding closing
nested token = enter exact_add (λ t. closing)

closing-IsBalanced : IsBalanced closing
unfolding closing
closing-IsBalanced m v = close-Keeps m

nested-IsBalanced : (token : ℕ) → IsBalanced (nested token)
unfolding nested
nested-IsBalanced token m v = enter-Keeps exact_add (λ t. closing) m (λ t. closing-IsBalanced) v

enter-Keeps_example : Keeps idle ((enter exact_add nested idle).1)
enter-Keeps_example = enter-Keeps exact_add nested idle nested-IsBalanced (λ h. refl)

enter-interrupted_example :
    due_error (arm exact_add limited start) ((enter exact_add nested idle).1.world) ≡ none
unfolding nested enter due_error arm guestjs.Policy.deadline_of close
enter-interrupted_example = enter-interrupted exact_add nested idle nested-IsBalanced refl refl refl
