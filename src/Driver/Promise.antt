-- ===== src/Driver/Promise.antt =====
-- `PromiseFuture` of crates/guestjs-core/src/driver/promise.rs: awaiting a promise of the guest. One
-- poll gives its answer, whether it has woken its own task, and the future and the state that it
-- leaves. A promise, and a value of the guest that is kept outside of it, are numbers.
pub mod Deadline
use guestjs.Prelude.{ℕ, Bool, true, false, Option, none, some}
use guestjs.Errors.{Error, Result, ok, err}
use guestjs.Policy.{ArmedPolicy, arm, due_error}
use guestjs.Guest.{enter}
use guestjs.Futures.{Poll, pending, ready}
use guestjs.Driver.HostFutures.{State}
use guestjs.Driver.EventLoop.{Progress, progressed, waiting, idle, Runner, step}

-- `PromiseState`; the reason of a rejection is a value.
pub data PromiseState : Type 0 where
  unsettled : PromiseState
  fulfilled rejected : ℕ → PromiseState

-- What the engine does with a promise, inside the entered guest.
pub record Promises (S : Type 0) : Type 0 where
  pub attach : ℕ → S → Result ℕ × S
  pub state : ℕ → S → Result PromiseState × S
  pub detach : ℕ → S → ℕ × S
  pub throw : ℕ → S → Error × S

pub record PromiseFuture : Type 0 where
  pub promise : ℕ
  pub armed : Option ArmedPolicy

module _ {S : Type 0} (promises : Promises S) where
  unfoldable pub outcome_of : Result PromiseState × S → Result (Option ℕ) × S
  outcome_of (ok unsettled, s) = (ok none, s)
  outcome_of (ok (fulfilled value), s) =
      let (owned, t) = promises.detach value s in (ok (some owned), t)
  outcome_of (ok (rejected reason), s) = let (e, t) = promises.throw reason s in (err e, t)
  outcome_of (err e, s) = (err e, s)

  unfoldable pub state_of : Result ℕ × S → Result (Option ℕ) × S
  unfolding outcome_of
  state_of (ok attached, s) = outcome_of (promises.state attached s)
  state_of (err e, s) = (err e, s)

-- `get_or_insert_with`
unfoldable pub armed_or : Option ArmedPolicy → ArmedPolicy → ArmedPolicy
armed_or none fresh = fresh
armed_or (some armed) fresh = armed

unfoldable pub step_answer : {S : Type 0} → Result Progress × S → (Poll (Result ℕ) × Bool) × S
step_answer (ok progressed, s) = ((pending, true), s)
step_answer (ok waiting, s) = ((pending, false), s)
step_answer (ok idle, s) = ((pending, false), s)
step_answer (err e, s) = ((ready (err e), false), s)

module _ {F P H : Type 0} (runner : Runner F P H) (promises : Promises (State F P H)) where
  unfoldable pub settled : PromiseFuture → State F P H → Result (Option ℕ) × State F P H
  unfolding state_of
  settled p m =
      enter runner.checked_add (λ token n. state_of promises (promises.attach p.promise n)) m

  unfoldable pub step_unless :
      Result (Option ℕ) × State F P H → (Poll (Result ℕ) × Bool) × State F P H
  unfolding step_answer step
  step_unless (ok none, m) = step_answer (step runner m)
  step_unless (ok (some value), m) = ((ready (ok value), false), m)
  step_unless (err e, m) = ((ready (err e), false), m)

  unfoldable pub poll_due :
      Option Error → PromiseFuture → State F P H → (Poll (Result ℕ) × Bool) × State F P H
  unfolding step_unless settled
  poll_due (some e) p m = ((ready (err e), false), m)
  poll_due none p m = step_unless (settled p m)

  unfoldable pub poll_armed :
      ArmedPolicy
      → PromiseFuture
      → State F P H
      → (Poll (Result ℕ) × Bool) × (PromiseFuture × State F P H)
  unfolding poll_due
  poll_armed armed p m =
      let (answer, after) = poll_due (due_error armed (m.world)) p m in
      (answer, (record p { armed = some armed }, after))

  unfoldable pub poll_promise :
      PromiseFuture → State F P H → (Poll (Result ℕ) × Bool) × (PromiseFuture × State F P H)
  unfolding poll_armed armed_or
  poll_promise p m =
      poll_armed (armed_or p.armed (arm runner.checked_add m.guest.activity.policy m.world)) p m
