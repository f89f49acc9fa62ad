-- ===== src/Driver/HostFutures.antt =====
-- `PendingHostFutures` of crates/guestjs-core/src/driver/host_futures.rs. The future itself is the
-- embedding's: `poll_future` is what one poll of it gives, the future that it leaves, and what it
-- does to the state, where it may enter the guest or register another future. The engine's answers
-- are a record of functions on the state; a value, a resolver and a promise are numbers.
pub mod Conservation
pub mod Publication
use guestjs.Prelude.{ℕ, Bool, true, false, not, ◌&&◌, List, [], ◌∷◌, ◌++◌, push}
use guestjs.Text.{is_empty}
use guestjs.Errors.{Error, Result, ok, err}
use guestjs.Guest.{Machine}
use guestjs.Futures.{Poll, pending, ready}

pub record InFlight (F : Type 0) : Type 0 where
  pub resolve : ℕ
  pub reject : ℕ
  pub future : F

pub record Settled (P : Type 0) : Type 0 where
  pub resolve : ℕ
  pub reject : ℕ
  pub outcome : Result P

pub record PendingHostFutures (F P : Type 0) : Type 0 where
  pub in_flight : List (InFlight F)
  pub settled : List (Settled P)

-- What the engine does with a settled future, on its state `S`.
pub record Engine (S P : Type 0) : Type 0 where
  -- the closure that makes the value inside the entered guest
  pub run : P → S → Result ℕ × S
  pub new_exception : Error → S → Result ℕ × S
  pub attach : ℕ → S → Result ℕ × S
  pub call : ℕ → ℕ → S → Result ℕ × S

module _ {F P : Type 0} where
  unfoldable pub no_futures : PendingHostFutures F P
  no_futures = record { in_flight = []; settled = [] }

  unfoldable pub is_idle : PendingHostFutures F P → Bool
  is_idle h = is_empty h.in_flight && is_empty h.settled

  unfoldable pub has_settled : PendingHostFutures F P → Bool
  has_settled h = not (is_empty h.settled)

  -- `register`, with the two functions of the promise that the engine has made
  unfoldable pub register : ℕ → ℕ → F → PendingHostFutures F P → PendingHostFutures F P
  register resolve reject future h = record h {
    in_flight = push h.in_flight (record { resolve = resolve; reject = reject; future = future });
  }

  unfoldable pub settle : InFlight F → Result P → Settled P
  settle entry outcome = record {
    resolve = entry.resolve;
    reject = entry.reject;
    outcome = outcome;
  }

  unfoldable pub keep :
      InFlight F → Poll (Result P) → F → PendingHostFutures F P → PendingHostFutures F P
  unfolding settle
  keep entry pending future h = record h {
    in_flight = push h.in_flight (record entry { future = future });
  }
  keep entry (ready outcome) future h = record h { settled = push h.settled (settle entry outcome) }

-- What the engine keeps for the guest, with the host futures, an extension of the guest.
pub record Host (F P H : Type 0) : Type 0 where
  pub futures : PendingHostFutures F P
  pub engine : H

abbrev pub State : Type 0 → Type 0 → Type 0 → Type 0
State F P H = Machine (Host F P H)

module _ {F P H : Type 0} where
  unfoldable pub with_futures : PendingHostFutures F P → State F P H → State F P H
  with_futures h m = record m { heap = record (m.heap) { futures = h } }

module _ {F P H : Type 0}
    (poll_future : F → State F P H → Poll (Result P) × (F × State F P H)) where
  unfoldable pub poll_each : List (InFlight F) → State F P H → State F P H
  unfolding keep with_futures
  poll_each [] m = m
  poll_each (entry ∷ rest) m =
      let (answer, left) = poll_future entry.future m in
      poll_each rest (with_futures (keep entry answer left.0 left.1.heap.futures) left.1)

  -- `take` leaves the list of what is in flight empty before the loop.
  unfoldable pub poll : State F P H → State F P H
  unfolding poll_each with_futures
  poll m =
      poll_each (m.heap.futures.in_flight)
        (with_futures (record (m.heap.futures) { in_flight = [] }) m)

module _ {S P : Type 0} (engine : Engine S P) where
  pub done : Result ℕ × S → Result (Unit {0}) × S
  done (ok value, s) = (ok tt, s)
  done (err e, s) = (err e, s)

  pub call_with : ℕ → Result ℕ × S → Result (Unit {0}) × S
  unfolding done
  call_with argument (ok function, s) = done (engine.call function argument s)
  call_with argument (err e, s) = (err e, s)

  -- attaches the function of the promise and calls it
  unfoldable pub deliver : ℕ → ℕ → S → Result (Unit {0}) × S
  unfolding call_with
  deliver function argument s = call_with argument (engine.attach function s)

  unfoldable pub make : Result P → S → Result ℕ × S
  make (ok result) s = engine.run result s
  make (err e) s = (err e, s)

  pub reject_with : Settled P → Result ℕ × S → Result (Unit {0}) × S
  unfolding deliver
  reject_with settled (ok exception, s) = deliver settled.reject exception s
  reject_with settled (err e, s) = (err e, s)

  pub publish_made : Settled P → Result ℕ × S → Result (Unit {0}) × S
  unfolding reject_with deliver
  publish_made settled (ok value, s) = deliver settled.resolve value s
  publish_made settled (err e, s) = reject_with settled (engine.new_exception e s)

  -- `Settled::publish`
  unfoldable pub publish_one : Settled P → S → Result (Unit {0}) × S
  unfolding publish_made make
  publish_one settled s = publish_made settled (make settled.outcome s)

  -- `try_for_each`: the first error ends the loop.
  unfoldable pub publish_each : List (Settled P) → S → Result (Unit {0}) × S
  publish_each [] s = (ok tt, s)
  publish_each (settled ∷ rest) s =
      let (result, t) = publish_one settled s in
      elim result [ ok _ ↦ publish_each rest t | err e ↦ (err e, t) ]

-- `take` leaves the list of what has settled empty before the loop.
unfoldable pub publish :
    {F P H : Type 0} → Engine (State F P H) P → State F P H → Result (Unit {0}) × State F P H
unfolding publish_each with_futures
publish engine m =
    publish_each engine (m.heap.futures.settled)
      (with_futures (record (m.heap.futures) { settled = [] }) m)
