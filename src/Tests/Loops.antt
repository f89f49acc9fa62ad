-- ===== src/Tests/Loops.antt =====
-- Runs of the event loop and of awaited promises, crates/guestjs-core/src/driver/event_loop.rs and
-- driver/promise.rs.
use guestjs.Prelude.{
  ℕ, Bool, true, false, ◌≡◌, refl, none, some, [], ◌∷◌, ◌==◌, ◌-◌, ◌+◌, if◌then◌else◌, arith,
}
use guestjs.Errors.{Result, ok, err, timeout}
use guestjs.Policy.{ArmedPolicy}
use guestjs.Guest.{GuestState}
use guestjs.Futures.{Poll, pending, ready}
use guestjs.Driver.HostFutures.{PendingHostFutures, Engine, State, poll}
use guestjs.Driver.EventLoop.{Runner, run_poll}
use guestjs.Driver.EventLoop.Idle.{Ran, run_poll-Ran}
use guestjs.Driver.Promise.{Promises, unsettled, PromiseFuture, poll_promise}
use guestjs.Driver.Promise.Deadline.{first_poll, Polled-timeout}

abbrev limited : GuestState
limited = record {
  id = 1;
  context_id = 4;
  closed = false;
  activity = record {
    policy = record { time_limit = some 20; cancellation = none };
    depth = 0;
    armed = none;
  };
}

-- the engine is the number of jobs that are left to run
abbrev Loop : Type 0
Loop = State ℕ ℕ ℕ

abbrev loop_of : PendingHostFutures ℕ ℕ → ℕ → ℕ → Loop
loop_of futures jobs now = record {
  heap = record { futures = futures; engine = jobs };
  world = record { now = now; signals = λ s. false };
  guest = limited;
}

abbrev one_job : Loop → Poll (Result Bool) × Loop
one_job m = (
  ready (ok (if m.heap.engine == 0 then false else true)),
  record m { heap = record (m.heap) { engine = m.heap.engine - 1 } },
)

abbrev quiet : Engine Loop ℕ
quiet = record {
  run = λ p m. (ok p, m);
  new_exception = λ e m. (ok 99, m);
  attach = λ f m. (ok f, m);
  call = λ f x m. (ok 0, m);
}

abbrev runner : Runner ℕ ℕ ℕ
runner = record {
  checked_add = λ t d. some (t + d);
  poll_future = λ n m. (if n == 0 then ready (ok 5) else pending, (n - 1, m));
  engine = quiet;
  poll_jobs = one_job;
}

abbrev one_future : PendingHostFutures ℕ ℕ
one_future = record {
  in_flight = record { resolve = 1; reject = 2; future = 0 } ∷ [];
  settled = [];
}

abbrev no_future : PendingHostFutures ℕ ℕ
no_future = record { in_flight = []; settled = [] }

abbrev unlimited : ArmedPolicy
unlimited = record { deadline = none; cancellation = none }

publishes :
    run_poll runner unlimited (loop_of one_future 0 0) ≡ ((pending, true), loop_of no_future 0 0)
unfolding run_poll guestjs.Driver.HostFutures.poll guestjs.Driver.HostFutures.publish
    guestjs.Policy.due_error guestjs.Driver.HostFutures.has_settled guestjs.Guest.enter
    guestjs.Policy.arm guestjs.Policy.deadline_of guestjs.Driver.HostFutures.publish_one
publishes = refl

finishes :
    run_poll runner unlimited (loop_of no_future 0 0)
    ≡ ((ready (ok tt), false), loop_of no_future 0 0)
unfolding run_poll guestjs.Driver.HostFutures.poll guestjs.Policy.due_error
    guestjs.Driver.HostFutures.has_settled guestjs.Guest.activate guestjs.Policy.arm
    guestjs.Policy.deadline_of guestjs.Driver.HostFutures.is_idle
finishes = refl

run_poll-Ran_example :
    Ran runner unlimited (loop_of one_future 0 0) pending true (loop_of no_future 0 0)
run_poll-Ran_example =
    run_poll-Ran runner unlimited (loop_of one_future 0 0) (loop_of no_future 0 0) pending true
      publishes

abbrev never : Promises Loop
never = record {
  attach = λ p m. (ok p, m);
  state = λ p m. (ok unsettled, m);
  detach = λ v m. (v, m);
  throw = λ reason m. (timeout, m);
}

abbrev awaited : PromiseFuture
awaited = record { promise = 3; armed = none }

abbrev armed_once : PromiseFuture
armed_once = record {
  promise = 3;
  armed = some (record { deadline = some 30; cancellation = none });
}

waits_once :
    poll_promise runner never awaited (loop_of no_future 0 10)
    ≡ ((pending, false), (armed_once, loop_of no_future 0 10))
unfolding poll_promise guestjs.Policy.due_error guestjs.Policy.arm guestjs.Policy.deadline_of
    guestjs.Guest.enter guestjs.Driver.HostFutures.has_settled guestjs.Driver.HostFutures.poll
    guestjs.Driver.HostFutures.is_idle
waits_once = refl

Polled-timeout_example :
    poll_promise runner never armed_once (loop_of no_future 0 30)
    ≡ ((ready (err timeout), false), (armed_once, loop_of no_future 0 30))
Polled-timeout_example =
    Polled-timeout runner never awaited armed_once (loop_of no_future 0 10) (loop_of no_future 0 30)
      20 30 refl (first_poll (pending, false) (loop_of no_future 0 10) waits_once) refl refl
      (omega arith)
