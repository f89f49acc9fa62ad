-- ===== src/Policy/Runs.antt =====
-- An armed policy (crates/guestjs-core/src/policy.rs) over a whole run: time that goes by and signals
-- that are raised, in any order.
use guestjs.Prelude.{
  ℕ, ◌≡◌, refl, Bool, false, ◌||◌, ◌&&◌, Option, none, some, List, [], ◌∷◌, ◌+◌, leb, ◌==◌, arith,
  is_some, ◌⊎◌, inl, inr, if◌then◌else◌,
}
use guestjs.Errors.{Error, timeout, cancelled}
use guestjs.Policy.{
  World, ExecutionPolicy, arm, past, raised, is_expired, is_cancelled, due_error, due_error_of,
  is_due, deadline_of, cancel, signal_is_cancelled,
}

pub data Event : Type 0 where
  passes : ℕ → Event
  cancels : ℕ → Event

abbrev pub happen : Event → World → World
happen (passes ticks) w = record w { now = w.now + ticks }
happen (cancels signal) w = cancel signal w

abbrev pub happen_all : List Event → World → World
happen_all [] w = w
happen_all (e ∷ es) w = happen_all es (happen e w)

abbrev pub elapsed : List Event → ℕ
elapsed [] = 0
elapsed (passes ticks ∷ es) = ticks + elapsed es
elapsed (cancels _ ∷ es) = elapsed es

abbrev pub cancelled_in : ℕ → List Event → Bool
cancelled_in s [] = false
cancelled_in s (passes _ ∷ es) = cancelled_in s es
cancelled_in s (cancels signal ∷ es) = (s == signal) || cancelled_in s es

-- a limit whose deadline the platform can represent has gone by
abbrev pub out_of_time : (ℕ → ℕ → Option ℕ) → Option ℕ → ℕ → List Event → Bool
out_of_time checked_add none start es = false
out_of_time checked_add (some limit) start es =
    is_some (checked_add start limit) && leb limit (elapsed es)

abbrev pub cancelled_by : Option ℕ → World → List Event → Bool
cancelled_by none w es = false
cancelled_by (some s) w es = w.signals s || cancelled_in s es

abbrev pub verdict : Bool → Bool → Option Error
verdict late unwanted = if late then some timeout else if unwanted then some cancelled else none

happen_all-now : (es : List Event) (w : World) → (happen_all es w).now ≡ w.now + elapsed es
unfolding cancel
happen_all-now [] w = omega arith
happen_all-now (passes ticks ∷ es) w = omega (arith, happen_all-now es (happen (passes ticks) w))
happen_all-now (cancels s ∷ es) w = happen_all-now es (happen (cancels s) w)

happen_all-signals :
    (es : List Event) (w : World) (s : ℕ)
    → (happen_all es w).signals s ≡ (w.signals s || cancelled_in s es)
unfolding cancel
happen_all-signals [] w s = ground arith
happen_all-signals (passes ticks ∷ es) w s = happen_all-signals es (happen (passes ticks) w) s
happen_all-signals (cancels x ∷ es) w s =
    ground (arith, happen_all-signals es (happen (cancels x) w) s)

raised-happen_all :
    (o : Option ℕ) (es : List Event) (w : World) → raised o (happen_all es w) ≡ cancelled_by o w es
unfolding raised signal_is_cancelled
raised-happen_all none es w = refl
raised-happen_all (some s) es w = happen_all-signals es w s

past-happen_all :
    (checked_add : ℕ → ℕ → Option ℕ)
    → ((t d : ℕ) → (checked_add t d ≡ none) ⊎ (checked_add t d ≡ some (t + d)))
    → (limit : Option ℕ) (es : List Event) (w : World)
    → past (deadline_of checked_add limit w.now) (happen_all es w).now
      ≡ out_of_time checked_add limit w.now es
unfolding past deadline_of
past-happen_all checked_add exact none es w = refl
past-happen_all checked_add exact (some limit) es w = elim (exact w.now limit) [
  | inl e ↦ rw e refl
  | inr e ↦ rw (e, happen_all-now es w) (ground arith)
]

-- At any time of a run, a policy that was armed at its start stops it for the timeout exactly when
-- the time that has gone by since then reaches the limit, and else for the cancellation exactly when
-- its signal was raised before the start or since, in whatever order these happened; otherwise it
-- does not stop it, and the question of the interrupt handler has the same answer. `checked_add`
-- gives the sum or nothing, and a limit whose deadline it cannot give does not count.
pub due_error-happen_all :
    (checked_add : ℕ → ℕ → Option ℕ)
    → ((t d : ℕ) → (checked_add t d ≡ none) ⊎ (checked_add t d ≡ some (t + d)))
    → (policy : ExecutionPolicy) (es : List Event) (w : World)
    → let late = out_of_time checked_add policy.time_limit w.now es in
      let unwanted = cancelled_by policy.cancellation w es in
      (due_error (arm checked_add policy w) (happen_all es w) ≡ verdict late unwanted)
      × (is_due (arm checked_add policy w) (happen_all es w) ≡ is_some (verdict late unwanted))
unfolding due_error is_due is_expired is_cancelled arm due_error_of
due_error-happen_all checked_add exact policy es w =
    rw
      (
        past-happen_all checked_add exact policy.time_limit es w,
        raised-happen_all policy.cancellation es w,
      )
      (ground arith, ground arith)
