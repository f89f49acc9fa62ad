-- ===== src/Handle/Writer.antt =====
-- `WriterState` and `Writer` of crates/guestjs-core/src/handle/stream.rs. The methods of the
-- guest's writer object and the polls of their promises are a record of functions on the guest's
-- state `S`; a chunk is of type `C`, the reason of an abort of type `R`. The methods of the sink
-- are one poll each. `abort` is its call (`start_abort`) and the polls of its own promise
-- (`poll_abort`), which it keeps to itself.
pub mod Calls
pub mod Runs
pub mod Refines
pub mod Settling
use guestjs.Prelude.{Option, none, some}
use guestjs.Errors.{Result, ok, err, unexpected, literal}
use guestjs.Futures.{Poll, pending, ready, Polling}

pub data WriterPhase : Type 0 where
  writer_open writing closing writer_closed failed writer_released : WriterPhase

pub record WriterObject (S F C R : Type 0) : Type 0 where
  pub call_write : C → S → Result F × S
  pub call_close : S → Result F × S
  pub call_abort : R → S → Result F × S
  pub call_release_lock : S → Result (Unit {0}) × S
  pub poll_future : Polling S F (Unit {0})

pub record WriterState (F : Type 0) : Type 0 where
  pub phase : WriterPhase
  pub pending : Option F

module _ {F : Type 0} where
  unfoldable pub new_writer : WriterState F
  new_writer = record { phase = writer_open; pending = none }

  unfoldable pub begin : WriterPhase → F → WriterState F
  begin phase future = record { phase = phase; pending = some future }

  unfoldable pub reset : WriterPhase → WriterState F
  reset phase = record { phase = phase; pending = none }

-- the phase after a promise has settled
unfoldable pub settled_phase : Result (Unit {0}) → WriterPhase → WriterPhase
settled_phase (err e) phase = failed
settled_phase (ok _) writing = writer_open
settled_phase (ok _) closing = writer_closed
settled_phase (ok _) phase = phase

module _ {S F C R : Type 0} (object : WriterObject S F C R) where
  unfoldable pub polled :
      WriterPhase
      → Poll (Result (Unit {0})) × (F × S)
      → Poll (Result (Unit {0})) × (WriterState F × S)
  unfolding begin reset settled_phase
  polled phase (pending, (future, s)) = (pending, (begin phase future, s))
  polled phase (ready result, (future, s)) = (ready result, (reset (settled_phase result phase), s))

  unfoldable pub poll_pending :
      Option F → WriterState F → S → Poll (Result (Unit {0})) × (WriterState F × S)
  unfolding polled
  poll_pending none w s = (ready (ok tt), (w, s))
  poll_pending (some future) w s = polled w.phase (object.poll_future future s)

  -- `WriterState::poll`
  unfoldable pub poll_state : WriterState F → S → Poll (Result (Unit {0})) × (WriterState F × S)
  unfolding poll_pending
  poll_state w s = poll_pending w.pending w s

  unfoldable pub close_begun : Result F × S → Poll (Result (Unit {0})) × (WriterState F × S)
  unfolding begin reset poll_state
  close_begun (ok future, s) = poll_state (begin closing future) s
  close_begun (err e, s) = (ready (err e), (reset failed, s))

  unfoldable pub start_close : S → Poll (Result (Unit {0})) × (WriterState F × S)
  unfolding close_begun
  start_close s = close_begun (object.call_close s)

  -- what follows the last chunk, where a chunk is still written
  unfoldable pub close_written :
      Poll (Result (Unit {0})) × (WriterState F × S)
      → Poll (Result (Unit {0})) × (WriterState F × S)
  unfolding start_close
  close_written (ready (ok _), (w, s)) = start_close s
  close_written (ready (err e), left) = (ready (err e), left)
  close_written (pending, left) = (pending, left)

  unfoldable pub close_in :
      WriterPhase → WriterState F → S → Poll (Result (Unit {0})) × (WriterState F × S)
  unfolding poll_state close_written
  close_in writer_closed w s = (ready (ok tt), (w, s))
  close_in failed w s = (ready (err (unexpected (literal "writer is not open"))), (w, s))
  close_in writer_released w s = (ready (err (unexpected (literal "writer is not open"))), (w, s))
  close_in closing w s = poll_state w s
  close_in writing w s = close_written (poll_state w s)
  close_in writer_open w s = start_close s

  -- `poll_close_operation`, which `close` and the sink's `poll_close` poll
  unfoldable pub poll_close : WriterState F → S → Poll (Result (Unit {0})) × (WriterState F × S)
  unfolding close_in
  poll_close w s = close_in w.phase w s

  unfoldable pub ready_in :
      WriterPhase → WriterState F → S → Poll (Result (Unit {0})) × (WriterState F × S)
  unfolding poll_state
  ready_in writer_open w s = (ready (ok tt), (w, s))
  ready_in writing w s = poll_state w s
  ready_in phase w s = (ready (err (unexpected (literal "writer is not open"))), (w, s))

  unfoldable pub poll_ready : WriterState F → S → Poll (Result (Unit {0})) × (WriterState F × S)
  unfolding ready_in
  poll_ready w s = ready_in w.phase w s

  unfoldable pub sent : Result F × S → Result (Unit {0}) × (WriterState F × S)
  unfolding begin reset
  sent (ok future, s) = (ok tt, (begin writing future, s))
  sent (err e, s) = (err e, (reset failed, s))

  unfoldable pub send_in :
      WriterPhase → C → WriterState F → S → Result (Unit {0}) × (WriterState F × S)
  unfolding sent
  send_in writer_open chunk w s = sent (object.call_write chunk s)
  send_in phase chunk w s = (err (unexpected (literal "writer is not ready")), (w, s))

  unfoldable pub start_send : C → WriterState F → S → Result (Unit {0}) × (WriterState F × S)
  unfolding send_in
  start_send chunk w s = send_in w.phase chunk w s

  unfoldable pub flush_in :
      WriterPhase → WriterState F → S → Poll (Result (Unit {0})) × (WriterState F × S)
  unfolding poll_state
  flush_in writing w s = poll_state w s
  flush_in closing w s = poll_state w s
  flush_in failed w s = (ready (err (unexpected (literal "writer is not open"))), (w, s))
  flush_in writer_released w s = (ready (err (unexpected (literal "writer is not open"))), (w, s))
  flush_in phase w s = (ready (ok tt), (w, s))

  unfoldable pub poll_flush : WriterState F → S → Poll (Result (Unit {0})) × (WriterState F × S)
  unfolding flush_in
  poll_flush w s = flush_in w.phase w s

  unfoldable pub unlocked :
      WriterState F → Result (Unit {0}) × S → Result (Unit {0}) × (WriterState F × S)
  unfolding reset
  unlocked w (ok _, s) = (ok tt, (reset writer_released, s))
  unlocked w (err e, s) = (err e, (w, s))

  unfoldable pub release_lock : WriterState F → S → Result (Unit {0}) × (WriterState F × S)
  unfolding unlocked
  release_lock w s = unlocked w (object.call_release_lock s)

  unfoldable pub abort_called : WriterState F → Result F × S → Result F × (WriterState F × S)
  unfolding reset
  abort_called w (ok future, s) = (ok future, (reset failed, s))
  abort_called w (err e, s) = (err e, (w, s))

  unfoldable pub start_abort : R → WriterState F → S → Result F × (WriterState F × S)
  unfolding abort_called
  start_abort reason w s = abort_called w (object.call_abort reason s)

  unfoldable pub aborted :
      WriterState F
      → Poll (Result (Unit {0})) × (F × S)
      → Poll (Result (Unit {0})) × (F × (WriterState F × S))
  unfolding reset
  aborted w (ready (ok _), (future, s)) = (ready (ok tt), (future, (reset writer_closed, s)))
  aborted w (answer, (future, s)) = (answer, (future, (w, s)))

  unfoldable pub poll_abort :
      F → WriterState F → S → Poll (Result (Unit {0})) × (F × (WriterState F × S))
  unfolding aborted
  poll_abort future w s = aborted w (object.poll_future future s)
