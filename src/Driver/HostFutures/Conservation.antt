-- ===== src/Driver/HostFutures/Conservation.antt =====
-- No promise is lost between the two lists of crates/guestjs-core/src/driver/host_futures.rs.
use guestjs.Prelude.{ℕ, ◌≡◌, refl, Bool, List, [], ◌∷◌, push, arith, ◌+◌, if◌then◌else◌}
use guestjs.Errors.{Result}
use guestjs.Futures.{Poll, pending, ready}
use guestjs.Driver.HostFutures.{
  InFlight, Settled, PendingHostFutures, settle, keep, poll_each, poll, State, with_futures,
}

-- how many promises of a list have two functions that are `chosen`
module _ {F : Type 0} (chosen : ℕ → ℕ → Bool) where
  abbrev pub flying : List (InFlight F) → ℕ
  flying [] = 0
  flying (entry ∷ rest) = (if chosen entry.resolve entry.reject then 1 else 0) + flying rest

  flying-push :
      (entries : List (InFlight F)) (entry : InFlight F)
      → flying (push entries entry)
        ≡ (if chosen entry.resolve entry.reject then 1 else 0) + flying entries
  flying-push [] entry = refl
  flying-push (first ∷ rest) entry = omega (arith, flying-push rest entry)

module _ {P : Type 0} (chosen : ℕ → ℕ → Bool) where
  abbrev pub landed : List (Settled P) → ℕ
  landed [] = 0
  landed (entry ∷ rest) = (if chosen entry.resolve entry.reject then 1 else 0) + landed rest

  landed-push :
      (entries : List (Settled P)) (entry : Settled P)
      → landed (push entries entry)
        ≡ (if chosen entry.resolve entry.reject then 1 else 0) + landed entries
  landed-push [] entry = refl
  landed-push (first ∷ rest) entry = omega (arith, landed-push rest entry)

abbrev pub held : {F P : Type 0} → (ℕ → ℕ → Bool) → PendingHostFutures F P → ℕ
held chosen h = flying chosen h.in_flight + landed chosen h.settled

abbrev pub held_in : {F P H : Type 0} → (ℕ → ℕ → Bool) → State F P H → ℕ
held_in chosen m = held chosen (m.heap.futures)

held-keep :
    {F P : Type 0} (chosen : ℕ → ℕ → Bool) (entry : InFlight F) (answer : Poll (Result P))
    (future : F) (h : PendingHostFutures F P)
    → held chosen (keep entry answer future h)
      ≡ (if chosen entry.resolve entry.reject then 1 else 0) + held chosen h
unfolding keep
held-keep chosen entry pending future h =
    omega (arith, flying-push chosen h.in_flight (record entry { future = future }))
held-keep chosen entry (ready outcome) future h =
    omega (arith, landed-push chosen h.settled (settle entry outcome))

module _ {F P H : Type 0} (poll_future : F → State F P H → Poll (Result P) × (F × State F P H))
    (chosen : ℕ → ℕ → Bool) (news : F → State F P H → ℕ) where
  -- what the futures have registered while they were polled
  abbrev pub arrivals : List (InFlight F) → State F P H → ℕ
  arrivals [] m = 0
  arrivals (entry ∷ rest) m =
      let (answer, left) = poll_future entry.future m in
      news entry.future m
      + arrivals rest (with_futures (keep entry answer left.0 left.1.heap.futures) left.1)

  module _
      (registers : (f : F) (m : State F P H)
        → held_in chosen ((poll_future f m).1.1) ≡ held_in chosen m + news f m) where
    held-poll_each :
        (entries : List (InFlight F)) (m : State F P H)
        → held_in chosen (poll_each poll_future entries m)
          ≡ flying chosen entries + held_in chosen m + arrivals entries m
    unfolding poll_each with_futures
    held-poll_each [] m = omega arith
    held-poll_each (entry ∷ rest) m =
        let (answer, left) = poll_future entry.future m in
        let next = with_futures (keep entry answer left.0 left.1.heap.futures) left.1 in
        omega (
          arith,
          held-poll_each rest next,
          held-keep chosen entry answer left.0 left.1.heap.futures,
          registers entry.future m,
        )

  -- A poll neither loses a promise of the guest nor has it twice: of the promises whose two
  -- functions are `chosen`, however that is decided, as many are in flight or settled after the
  -- poll as before it, and as many more as the futures have registered by themselves, where each
  -- poll of a future adds to them what `news` says.
  pub held-poll :
      (m : State F P H)
      → ((f : F) (n : State F P H)
          → held_in chosen ((poll_future f n).1.1) ≡ held_in chosen n + news f n)
      → held_in chosen (poll poll_future m)
        ≡ held_in chosen m
          + arrivals
              (m.heap.futures.in_flight)
              (with_futures (record (m.heap.futures) { in_flight = [] }) m)
  unfolding poll with_futures
  held-poll m registers = omega (
    arith,
    held-poll_each registers (m.heap.futures.in_flight)
        (with_futures (record (m.heap.futures) { in_flight = [] }) m),
  )
