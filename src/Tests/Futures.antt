-- ===== src/Tests/Futures.antt =====
-- Runs of crates/guestjs-core/src/driver/host_futures.rs. A future of the tests is a number of
-- polls to come, after which it is ready with a value.
use guestjs.Prelude.{ℕ, ◌≡◌, refl, List, [], ◌∷◌, ◌==◌, ◌-◌, ◌+◌, if◌then◌else◌, false, none, arith}
use guestjs.Errors.{Result, ok, err, closed}
use guestjs.Guest.{GuestState}
use guestjs.Futures.{Poll, pending, ready}
use guestjs.Driver.HostFutures.{InFlight, Settled, PendingHostFutures, Engine, State, poll, publish}
use guestjs.Driver.HostFutures.Conservation.{held_in, arrivals, held-poll}
use guestjs.Driver.HostFutures.Publication.{AllPublished, publish_sound}

abbrev guest : GuestState
guest = record {
  id = 1;
  context_id = 4;
  closed = false;
  activity = record {
    policy = record { time_limit = none; cancellation = none };
    depth = 0;
    armed = none;
  };
}

-- the engine is the list of the calls that it has seen
abbrev Loop : Type 0
Loop = State ℕ ℕ (List (ℕ × ℕ))

abbrev loop_of : PendingHostFutures ℕ ℕ → List (ℕ × ℕ) → Loop
loop_of futures calls = record {
  heap = record { futures = futures; engine = calls };
  world = record { now = 0; signals = λ s. false };
  guest = guest;
}

abbrev countdown : ℕ → Loop → Poll (Result ℕ) × (ℕ × Loop)
countdown n m = (if n == 0 then ready (ok 5) else pending, (n - 1, m))

abbrev two : PendingHostFutures ℕ ℕ
two = record {
  in_flight =
      record { resolve = 1; reject = 2; future = 0 }
      ∷ (record { resolve = 3; reject = 4; future = 1 } ∷ []);
  settled = [];
}

held-poll_example :
    held_in (λ resolve reject. resolve == 1) (poll countdown (loop_of two []))
    ≡ held_in (λ resolve reject. resolve == 1) (loop_of two [])
      + arrivals countdown
          (λ resolve reject. resolve == 1)
          (λ f m. 0)
          two.in_flight
          (loop_of (record two { in_flight = [] }) [])
held-poll_example =
    held-poll countdown (λ resolve reject. resolve == 1) (λ f m. 0) (loop_of two [])
      (λ f n. omega arith)

abbrev recorded : List (ℕ × ℕ) → Loop → Loop
recorded calls m = record m { heap = record (m.heap) { engine = calls } }

abbrev recording : Engine Loop ℕ
recording = record {
  run = λ p m. (ok p, m);
  new_exception = λ e m. (ok 99, m);
  attach = λ f m. (ok f, m);
  call = λ f x m. (ok 0, recorded ((f, x) ∷ m.heap.engine) m);
}

abbrev landed_two : PendingHostFutures ℕ ℕ
landed_two = record {
  in_flight = [];
  settled =
      record { resolve = 1; reject = 2; outcome = ok 5 }
      ∷ (record { resolve = 3; reject = 4; outcome = err closed } ∷ []);
}

abbrev none_left : PendingHostFutures ℕ ℕ
none_left = record { in_flight = []; settled = [] }

publish_sound_example :
    AllPublished recording landed_two.settled
      (loop_of none_left [])
      (loop_of none_left ((4, 99) ∷ ((1, 5) ∷ [])))
unfolding publish guestjs.Driver.HostFutures.publish_one guestjs.Driver.HostFutures.with_futures
publish_sound_example =
    publish_sound recording (loop_of landed_two []) (loop_of none_left ((4, 99) ∷ ((1, 5) ∷ [])))
      refl
