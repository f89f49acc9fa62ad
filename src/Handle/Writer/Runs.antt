-- ===== src/Handle/Writer/Runs.antt =====
-- Runs of the writer of crates/guestjs-core/src/handle/stream.rs: its operations in any order, on an
-- object that keeps a log of what is called and settled.
use guestjs.Prelude.{◌≡◌, Bool, true, false, Option, none, some, List, [], ◌∷◌}
use guestjs.Errors.{Result, ok, err}
use guestjs.Futures.{Poll, pending, ready}
use guestjs.Handle.Writer.{
  WriterPhase, writing, closing, failed, WriterObject, WriterState, new_writer, poll_close,
  poll_ready, start_send, poll_flush, release_lock, start_abort, poll_abort,
}
use guestjs.Handle.Writer.Calls.{
  Event, wrote, close_asked, abort_asked, unlock_asked, settled, Follows,
}

abbrev pub succeeded : {A : Type 0} → Result A → Bool
succeeded (ok value) = true
succeeded (err e) = false

-- A promise is held exactly while a chunk is written or the stream is closed.
abbrev pub Fits : {F : Type 0} → WriterPhase → Option F → Type 0
Fits writing (some future) = Unit {0}
Fits closing (some future) = Unit {0}
Fits writing none = ⊥
Fits closing none = ⊥
Fits _ (some future) = ⊥
Fits _ none = Unit {0}

-- What was called, and how it ended, put before the log.
abbrev pub noted :
    {A S : Type 0} → (Bool → Event) → List Event → Result A × S → Result A × (S × List Event)
noted event log (result, s) = (result, (s, event (succeeded result) ∷ log))

abbrev pub noted_poll :
    {S F : Type 0}
    → List Event
    → Poll (Result (Unit {0})) × (F × S)
    → Poll (Result (Unit {0})) × (F × (S × List Event))
noted_poll log (pending, (future, s)) = (pending, (future, (s, log)))
noted_poll log (ready result, (future, s)) =
    (ready result, (future, (s, settled (succeeded result) ∷ log)))

module _ {S F C R : Type 0} (object : WriterObject S F C R) where
  -- the same object, which keeps a log of what happens
  abbrev pub recorded : WriterObject (S × List Event) F C R
  recorded = record {
    call_write = λ chunk s. noted wrote s.1 (object.call_write chunk s.0);
    call_close = λ s. noted close_asked s.1 (object.call_close s.0);
    call_abort = λ reason s. noted abort_asked s.1 (object.call_abort reason s.0);
    call_release_lock = λ s. noted unlock_asked s.1 (object.call_release_lock s.0);
    poll_future = λ future s. noted_poll s.1 (object.poll_future future s.0);
  }

  pub data Operation : Type 0 where
    readies flushes closes unlocks : Operation
    sends : C → Operation
    aborts : R → Operation
    awaits_abort : F → Operation

  abbrev pub without_answer :
      {A : Type 0} → A × (WriterState F × (S × List Event)) → WriterState F × (S × List Event)
  without_answer (answer, left) = left

  abbrev pub operate : Operation → WriterState F → S × List Event → WriterState F × (S × List Event)
  operate readies w s = without_answer (poll_ready recorded w s)
  operate flushes w s = without_answer (poll_flush recorded w s)
  operate closes w s = without_answer (poll_close recorded w s)
  operate unlocks w s = without_answer (release_lock recorded w s)
  operate (sends chunk) w s = without_answer (start_send recorded chunk w s)
  operate (aborts reason) w s = without_answer (start_abort recorded reason w s)
  operate (awaits_abort future) w s = without_answer ((poll_abort recorded future w s).1)

  -- The promise of an abort is awaited while the writer is borrowed by `abort`, which has set it
  -- to failed.
  abbrev pub IsAllowed : Operation → WriterState F → Type 0
  IsAllowed (awaits_abort future) w = w.phase ≡ failed
  IsAllowed _ w = Unit {0}

  -- The operations in any order; between two of them the guest may act by itself.
  pub data Reachable : WriterState F × (S × List Event) → Type 0 where
    starts : (s : S) → Reachable (new_writer, (s, []))
    moves :
        {w : WriterState F} {s : S} {log : List Event} (t : S)
        → Reachable (w, (s, log))
        → Reachable (w, (t, log))
    steps :
        {w : WriterState F} {s : S × List Event} (op : Operation)
        → IsAllowed op w
        → Reachable (w, s)
        → Reachable (operate op w s)

  pub record IsTracked (state : WriterState F × (S × List Event)) : Type 0 where
    pub follows : Follows state.1.1 state.0.phase
    pub fits : Fits state.0.phase state.0.pending
