-- ===== src/Handle/Iter.antt =====
-- `Iter` and `AsyncIter` of crates/guestjs-core/src/handle/iter.rs. The guest's iterator object is
-- a record of functions on the guest's state `S`; `step` is a call of `next` with the conversion of
-- what it gave, none where the guest's iterator said that it is done.
pub mod Drained
pub mod AsReader
use guestjs.Prelude.{Bool, true, false, Option, none, some}
use guestjs.Errors.{Result, ok, err}
use guestjs.Futures.{Poll, pending, ready, Polling}

pub record IteratorObject (S T : Type 0) : Type 0 where
  pub step : S → Result (Option T) × S
  pub close_iterator : S → Result (Unit {0}) × S

pub record Iter : Type 0 where
  pub done : Bool

unfoldable pub new_iter : Iter
new_iter = record { done = false }

-- `Result::transpose`
unfoldable pub transpose : {T : Type 0} → Result (Option T) → Option (Result T)
transpose (ok none) = none
transpose (ok (some item)) = some (ok item)
transpose (err e) = some (err e)

-- `!matches!(step, Ok(Some(_)))`
unfoldable pub is_last : {T : Type 0} → Result (Option T) → Bool
is_last (ok (some item)) = false
is_last (ok none) = true
is_last (err e) = true

module _ {S T : Type 0} (object : IteratorObject S T) where
  unfoldable pub next_in : Bool → Iter → S → Option (Result T) × (Iter × S)
  unfolding transpose is_last
  next_in true it s = (none, (it, s))
  next_in false it s =
      let (step, t) = object.step s in (transpose step, (record it { done = is_last step }, t))

  unfoldable pub next : Iter → S → Option (Result T) × (Iter × S)
  unfolding next_in
  next it s = next_in it.done it s

  unfoldable pub close_in : Bool → S → Result (Unit {0}) × S
  close_in true s = (ok tt, s)
  close_in false s = object.close_iterator s

  unfoldable pub close_iter : Iter → S → Result (Unit {0}) × S
  unfolding close_in
  close_iter it s = close_in it.done s

pub record AsyncObject (S F G T : Type 0) : Type 0 where
  pub call_next : S → Result F × S
  pub poll_future : Polling S F (Option T)
  pub call_close : S → Result G × S
  pub poll_closing : Polling S G (Unit {0})

pub record AsyncIter (F : Type 0) : Type 0 where
  pub pending : Option F
  pub done : Bool

unfoldable pub new_async_iter : {F : Type 0} → AsyncIter F
new_async_iter = record { pending = none; done = false }

module _ {S F G T : Type 0} (object : AsyncObject S F G T) where
  -- the iterator after one poll of its future
  unfoldable pub keep_step : Poll (Result (Option T)) → F → AsyncIter F → AsyncIter F
  unfolding is_last
  keep_step pending future it = record it { pending = some future }
  keep_step (ready step) future it = record it { pending = none; done = is_last step }

  unfoldable pub poll_step : AsyncIter F → F → S → Poll (Result (Option T)) × (AsyncIter F × S)
  unfolding keep_step
  poll_step it future s =
      let (answer, left) = object.poll_future future s in
      (answer, (keep_step answer left.0 it, left.1))

  unfoldable pub start_step :
      AsyncIter F → Result F × S → Poll (Result (Option T)) × (AsyncIter F × S)
  unfolding poll_step
  start_step it (ok future, s) = poll_step it future s
  start_step it (err e, s) = (ready (err e), (record it { done = true }, s))

  unfoldable pub step_or_start :
      AsyncIter F → Option F → S → Poll (Result (Option T)) × (AsyncIter F × S)
  unfolding start_step
  step_or_start it none s = start_step it (object.call_next s)
  step_or_start it (some future) s = poll_step it future s

  unfoldable pub next_async_in :
      Bool → AsyncIter F → S → Poll (Result (Option T)) × (AsyncIter F × S)
  unfolding step_or_start
  next_async_in true it s = (ready (ok none), (it, s))
  next_async_in false it s = step_or_start it it.pending s

  -- one poll of the future of `next`
  unfoldable pub next_async : AsyncIter F → S → Poll (Result (Option T)) × (AsyncIter F × S)
  unfolding next_async_in
  next_async it s = next_async_in it.done it s

  -- What `close` does before it waits: a future to poll, or the result.
  pub data Closing : Type 0 where
    awaits : G → Closing
    returns : Result (Unit {0}) → Closing

  unfoldable pub close_called : Result G × S → Closing × S
  close_called (ok future, s) = (awaits future, s)
  close_called (err e, s) = (returns (err e), s)

  unfoldable pub close_async_in : Bool → S → Closing × S
  unfolding close_called
  close_async_in true s = (returns (ok tt), s)
  close_async_in false s = close_called (object.call_close s)

  unfoldable pub close_async : AsyncIter F → S → Closing × S
  unfolding close_async_in
  close_async it s = close_async_in it.done s
