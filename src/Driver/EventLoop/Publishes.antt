-- ===== src/Driver/EventLoop/Publishes.antt =====
-- What a step of the event loop (crates/guestjs-core/src/driver/event_loop.rs) that succeeds has done
-- for the promises of the host futures.
use guestjs.Prelude.{◌≡◌, Bool, false, [], ◌+◌}
use guestjs.Errors.{ok}
use guestjs.Futures.{Poll}
use guestjs.Guest.{finish, with_activity}
use guestjs.Driver.HostFutures.{State}
use guestjs.Driver.HostFutures.Publication.{AllPublished}
use guestjs.Driver.EventLoop.{Runner, run_jobs}

module _ {F P H : Type 0} (runner : Runner F P H) where
  -- From the state after the polls to the end of the step: the jobs run at once where nothing has
  -- settled, and otherwise after the promises were settled inside the guest.
  pub data Published (polled : State F P H) (after : State F P H) : Type 0 where
    nothing_settled :
        (jobs : Poll Bool)
        → polled.heap.futures.settled ≡ []
        → run_jobs runner polled ≡ (ok jobs, after)
        → Published polled after
    all_published :
        (jobs : Poll Bool) (entered left : State F P H)
        → polled.guest.closed ≡ false
        → entered.guest.activity.depth ≡ polled.guest.activity.depth + 1
        → entered.heap.futures.in_flight ≡ polled.heap.futures.in_flight
        → entered.heap.futures.settled ≡ []
        → AllPublished runner.engine (polled.heap.futures.settled) entered left
        → run_jobs runner (with_activity (finish (left.guest.activity)) left) ≡ (ok jobs, after)
        → Published polled after
