-- ===== src/Driver/EventLoop.antt =====
-- `EventLoop` of crates/guestjs-core/src/driver/event_loop.rs. The state is the guest's machine,
-- whose heap holds the host futures beside what the engine keeps; `poll_jobs` is the engine's.
-- `run_poll` is one poll of the future of `run_until_idle`: its closure, with the policy that was
-- armed before the first poll, and whether it has woken its own task.
pub mod Idle
pub mod Publishes
use guestjs.Prelude.{ℕ, Bool, true, false, Option, none, some, if◌then◌else◌}
use guestjs.Errors.{Error, Result, ok, err}
use guestjs.Policy.{ArmedPolicy, arm, due_error}
use guestjs.Guest.{activate, enter}
use guestjs.Futures.{Poll, pending, ready}
use guestjs.Driver.HostFutures.{
  PendingHostFutures, Engine, Host, State, is_idle, has_settled, poll, publish,
}

pub data Progress : Type 0 where
  progressed waiting idle : Progress

-- What the loop calls that is not its own: the clock's addition, a poll of a host future, and the
-- engine.
pub record Runner (F P H : Type 0) : Type 0 where
  pub checked_add : ℕ → ℕ → Option ℕ
  pub poll_future : F → State F P H → Poll (Result P) × (F × State F P H)
  pub engine : Engine (State F P H) P
  pub poll_jobs : State F P H → Poll (Result Bool) × State F P H

-- an answer of the engine, with the error in front of the wait
unfoldable pub transposed : {A S : Type 0} → Poll (Result A) × S → Result (Poll A) × S
transposed (pending, m) = (ok pending, m)
transposed (ready (ok a), m) = (ok (ready a), m)
transposed (ready (err e), m) = (err e, m)

-- the outer `match` of `step`; with no future left it is idle
unfoldable pub progress_of : Bool → Bool → Poll Bool → Progress
progress_of published no_future (ready true) = progressed
progress_of true no_future _ = progressed
progress_of false true (ready false) = idle
progress_of false false (ready false) = waiting
progress_of false no_future pending = waiting

module _ {F P H : Type 0} (runner : Runner F P H) where
  unfoldable pub publish_settled : Bool → State F P H → Result (Unit {0}) × State F P H
  publish_settled true m = enter runner.checked_add (λ token. publish runner.engine) m
  publish_settled false m = (ok tt, m)

  unfoldable pub run_jobs : State F P H → Result (Poll Bool) × State F P H
  unfolding transposed
  run_jobs m = activate runner.checked_add (λ n. transposed (runner.poll_jobs n)) m

  unfoldable pub progress : Bool → Result (Poll Bool) × State F P H → Result Progress × State F P H
  unfolding progress_of
  progress published (ok jobs, m) = (ok (progress_of published (is_idle m.heap.futures) jobs), m)
  progress published (err e, m) = (err e, m)

  unfoldable pub jobs_after : Bool → Result (Unit {0}) × State F P H → Result Progress × State F P H
  unfolding progress run_jobs
  jobs_after published (ok _, m) = progress published (run_jobs m)
  jobs_after published (err e, m) = (err e, m)

  unfoldable pub step : State F P H → Result Progress × State F P H
  unfolding jobs_after publish_settled
  step m =
      let polled = poll runner.poll_future m in
      let published = has_settled (polled.heap.futures) in
      jobs_after published (publish_settled published polled)

  unfoldable pub run_answer :
      Result Progress × State F P H → (Poll (Result (Unit {0})) × Bool) × State F P H
  run_answer (ok idle, m) = ((ready (ok tt), false), m)
  run_answer (ok progressed, m) = ((pending, true), m)
  run_answer (ok waiting, m) = ((pending, false), m)
  run_answer (err e, m) = ((ready (err e), false), m)

  unfoldable pub run_due :
      Option Error → State F P H → (Poll (Result (Unit {0})) × Bool) × State F P H
  unfolding run_answer step
  run_due (some e) m = ((ready (err e), false), m)
  run_due none m = run_answer (step m)

  unfoldable pub run_poll :
      ArmedPolicy → State F P H → (Poll (Result (Unit {0})) × Bool) × State F P H
  unfolding run_due
  run_poll armed m = run_due (due_error armed (m.world)) m
