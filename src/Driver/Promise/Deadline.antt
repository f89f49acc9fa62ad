-- ===== src/Driver/Promise/Deadline.antt =====
-- How long a promise of the guest is awaited (crates/guestjs-core/src/driver/promise.rs).
use guestjs.Prelude.{ℕ, ◌≡◌, sym, ap, ◌∙◌, Bool, true, false, none, some, ◌≤◌, arith}
use guestjs.Errors.{Error, Result, err, timeout}
use guestjs.Policy.{
  World, ExecutionPolicy, ArmedPolicy, arm, deadline_of, past, is_expired, is_cancelled, due_error,
  due_error_of,
}
use guestjs.Futures.{Poll, ready}
use guestjs.Driver.HostFutures.{State}
use guestjs.Driver.EventLoop.{Runner}
use guestjs.Driver.Promise.{Promises, PromiseFuture, armed_or, poll_armed, poll_promise}

module _ {F P H : Type 0} (runner : Runner F P H) (promises : Promises (State F P H)) where
  -- One poll or more; between two of them anything may happen to the state.
  pub data Polled (p : PromiseFuture) (m : State F P H) : PromiseFuture → Type 0 where
    first_poll :
        {q : PromiseFuture} (answer : Poll (Result ℕ) × Bool) (n : State F P H)
        → poll_promise runner promises p m ≡ (answer, (q, n))
        → Polled p m q
    next_poll :
        {q r : PromiseFuture} (answer : Poll (Result ℕ) × Bool) (n o : State F P H)
        → Polled p m q
        → poll_promise runner promises q n ≡ (answer, (r, o))
        → Polled p m r

  Polled-armed :
      (p : PromiseFuture) (m : State F P H) (q : PromiseFuture)
      → p.armed ≡ none
      → Polled p m q
      → q.armed ≡ some (arm runner.checked_add m.guest.activity.policy m.world)
  unfolding poll_promise poll_armed armed_or
  Polled-armed p m q fresh (first_poll answer n h) =
      sym (ap (λ x. x.1.0.armed) h)
      ∙ ap (λ a. some (armed_or a (arm runner.checked_add m.guest.activity.policy m.world))) fresh
  Polled-armed p m r fresh (next_poll {q = q} answer n o before h) =
      sym (ap (λ x. x.1.0.armed) h)
      ∙ ap (λ a. some (armed_or a (arm runner.checked_add n.guest.activity.policy n.world)))
          (Polled-armed p m q fresh before)

  due_late :
      (policy : ExecutionPolicy) (v w : World) (limit deadline : ℕ)
      → policy.time_limit ≡ some limit
      → runner.checked_add v.now limit ≡ some deadline
      → deadline ≤ w.now
      → due_error (arm runner.checked_add policy v) w ≡ some timeout
  unfolding due_error arm is_expired past deadline_of due_error_of
  due_late policy v w limit deadline limited sum late =
      let set : deadline_of runner.checked_add policy.time_limit v.now ≡ some deadline =
        ap (λ l. deadline_of runner.checked_add l v.now) limited ∙ sum in
      let over : past (some deadline) w.now ≡ true = ground (arith, late) in
      ap
        (λ d.
          due_error_of (past d w.now)
            (is_cancelled (record { deadline = d; cancellation = policy.cancellation }) w))
        set
      ∙ ap
          (λ b. due_error_of b (
            is_cancelled (record { deadline = some deadline; cancellation = policy.cancellation })
              w))
          over

  poll_promise-armed :
      (q : PromiseFuture) (n : State F P H) (armed : ArmedPolicy) (e : Error)
      → q.armed ≡ some armed
      → due_error armed (n.world) ≡ some e
      → poll_promise runner promises q n
        ≡ ((ready (err e), false), (record q { armed = some armed }, n))
  unfolding poll_promise poll_armed armed_or guestjs.Driver.Promise.poll_due
  poll_promise-armed q n armed e set due =
      ap
        (λ a.
          poll_armed runner promises
            (armed_or a (arm runner.checked_add n.guest.activity.policy n.world)) q n)
        set
      ∙ ap
          (λ d.
            let (answer, after) = guestjs.Driver.Promise.poll_due runner promises d q n in
            (answer, (record q { armed = some armed }, after)))
          due

  -- The deadline of a new future counts from its first poll, whatever happens to the guest, its
  -- policy and the future since: once the time limit of the policy of that moment has passed, a
  -- poll is ready with a timeout and does nothing else. The deadline can be represented.
  pub Polled-timeout :
      (p q : PromiseFuture) (m n : State F P H) (limit deadline : ℕ)
      → p.armed ≡ none
      → Polled p m q
      → m.guest.activity.policy.time_limit ≡ some limit
      → runner.checked_add m.world.now limit ≡ some deadline
      → deadline ≤ n.world.now
      → poll_promise runner promises q n ≡ ((ready (err timeout), false), (q, n))
  Polled-timeout p q m n limit deadline fresh polls limited sum late =
      let armed = arm runner.checked_add m.guest.activity.policy m.world in
      let set = Polled-armed p m q fresh polls in
      poll_promise-armed q n armed timeout set
        (due_late (m.guest.activity.policy) (m.world) (n.world) limit deadline limited sum late)
      ∙ ap (λ a. ((ready (err timeout), false), (record q { armed = a }, n))) (sym set)
