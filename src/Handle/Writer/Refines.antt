-- ===== src/Handle/Writer/Refines.antt =====
-- The writer of crates/guestjs-core/src/handle/stream.rs keeps to its phases: whatever the
-- operations, in any order, its phase is the one that the calls and the settled promises lead to.
use guestjs.Prelude.{
  ◌≡◌, refl, Bool, true, false, Option, none, some, List, ◌∷◌, subst, sym, inl, inr, ◌⊎◌,
}
use guestjs.Errors.{Result, ok, err}
use guestjs.Futures.{Poll, pending, ready}
use guestjs.Handle.Writer.{
  WriterPhase, writer_open, writing, closing, writer_closed, failed, writer_released, WriterObject,
  WriterState, new_writer, begin, reset, settled_phase, polled, poll_pending, poll_state,
  close_begun, start_close, close_written, close_in, poll_close, ready_in, poll_ready, sent,
  send_in, start_send, flush_in, poll_flush, unlocked, release_lock, abort_called, start_abort,
  aborted, poll_abort,
}
use guestjs.Handle.Writer.Calls.{
  Event, wrote, close_asked, abort_asked, unlock_asked, settled, Follows, fresh, write_called,
  write_refused, written, write_failed, close_called, close_refused, closed, close_failed,
  abort_granted, abort_refused, aborted_ok, abort_failed, unlock_granted, unlock_refused, Writes,
  write-Writes, close-Writes,
}
use guestjs.Handle.Writer.Runs.{
  Fits, noted, noted_poll, recorded, Operation, readies, flushes, closes, unlocks, sends, aborts,
  awaits_abort, operate, IsAllowed, Reachable, starts, moves, steps, IsTracked,
}

module _ {S F C R : Type 0} (object : WriterObject S F C R) where
  abbrev Tracked : {A : Type 0} → A × (WriterState F × (S × List Event)) → Type 0
  Tracked (answer, state) = IsTracked object state

  polled-Tracked :
      (phase : WriterPhase) (future : F) (log : List Event)
      (answer : Poll (Result (Unit {0})) × (F × S))
      → Follows log phase
      → Fits phase (some future)
      → Tracked (polled (recorded object) phase (noted_poll log answer))
  unfolding polled begin reset settled_phase
  polled-Tracked writing future log (pending, (g, s)) f b = record { follows = f; fits = tt }
  polled-Tracked writing future log (ready (ok _), (g, s)) f b = record {
    follows = written f;
    fits = tt;
  }
  polled-Tracked writing future log (ready (err e), (g, s)) f b = record {
    follows = write_failed f;
    fits = tt;
  }
  polled-Tracked closing future log (pending, (g, s)) f b = record { follows = f; fits = tt }
  polled-Tracked closing future log (ready (ok _), (g, s)) f b = record {
    follows = closed f;
    fits = tt;
  }
  polled-Tracked closing future log (ready (err e), (g, s)) f b = record {
    follows = close_failed f;
    fits = tt;
  }
  polled-Tracked writer_open future log answer f b = absurd b
  polled-Tracked writer_closed future log answer f b = absurd b
  polled-Tracked failed future log answer f b = absurd b
  polled-Tracked writer_released future log answer f b = absurd b

  poll_pending-Tracked :
      (held : Option F) (w : WriterState F) (s : S × List Event)
      → w.pending ≡ held
      → IsTracked object (w, s)
      → Tracked (poll_pending (recorded object) held w s)
  unfolding poll_pending
  poll_pending-Tracked none w s e v = v
  poll_pending-Tracked (some future) w s e v =
      polled-Tracked w.phase future s.1 (object.poll_future future s.0) v.follows
        (subst (λ x. Fits w.phase x) e v.fits)

  poll_state-Tracked :
      (w : WriterState F) (s : S × List Event)
      → IsTracked object (w, s)
      → Tracked (poll_state (recorded object) w s)
  unfolding poll_state
  poll_state-Tracked w s v = poll_pending-Tracked w.pending w s refl v

  close_begun-Tracked :
      (log : List Event) (called : Result F × S)
      → Follows log writer_open
      → Tracked (close_begun (recorded object) (noted close_asked log called))
  unfolding close_begun begin reset
  close_begun-Tracked log (ok future, s) f =
      poll_state-Tracked (begin closing future) (s, close_asked true ∷ log)
        (record { follows = close_called f; fits = tt })
  close_begun-Tracked log (err e, s) f = record { follows = close_refused f; fits = tt }

  start_close-Tracked :
      (s : S × List Event) → Follows s.1 writer_open → Tracked (start_close (recorded object) s)
  unfolding start_close
  start_close-Tracked s f = close_begun-Tracked s.1 (object.call_close s.0) f

  written_answer-Tracked :
      (log : List Event) (answer : Poll (Result (Unit {0})) × (F × S)) (future : F)
      → Follows log writing
      → Tracked (
          close_written
            (recorded object)
            (polled (recorded object) writing (noted_poll log answer)))
  unfolding close_written polled begin reset settled_phase
  written_answer-Tracked log (pending, (g, s)) future f = record { follows = f; fits = tt }
  written_answer-Tracked log (ready (ok _), (g, s)) future f =
      start_close-Tracked (s, settled true ∷ log) (written f)
  written_answer-Tracked log (ready (err e), (g, s)) future f = record {
    follows = write_failed f;
    fits = tt;
  }

  written-Tracked :
      (held : Option F) (w : WriterState F) (s : S × List Event)
      → w.phase ≡ writing
      → w.pending ≡ held
      → IsTracked object (w, s)
      → Tracked (close_written (recorded object) (poll_pending (recorded object) held w s))
  unfolding poll_pending
  written-Tracked none w s p e v =
      absurd (subst (λ x. Fits {F = F} x none) p (subst (λ x. Fits w.phase x) e v.fits))
  written-Tracked (some future) w s p e v =
      subst
        (λ x. Tracked (
          close_written (recorded object)
            (polled (recorded object) x ((recorded object).poll_future future s))))
        (sym p)
        (written_answer-Tracked s.1 (object.poll_future future s.0) future
          (subst (λ x. Follows s.1 x) p v.follows))

  close_in-Tracked :
      (phase : WriterPhase) (w : WriterState F) (s : S × List Event)
      → w.phase ≡ phase
      → IsTracked object (w, s)
      → Tracked (close_in (recorded object) phase w s)
  unfolding close_in poll_state
  close_in-Tracked writer_open w s p v =
      start_close-Tracked s (subst (λ x. Follows s.1 x) p v.follows)
  close_in-Tracked writing w s p v = written-Tracked w.pending w s p refl v
  close_in-Tracked closing w s p v = poll_state-Tracked w s v
  close_in-Tracked writer_closed w s p v = v
  close_in-Tracked failed w s p v = v
  close_in-Tracked writer_released w s p v = v

  ready_in-Tracked :
      (phase : WriterPhase) (w : WriterState F) (s : S × List Event)
      → IsTracked object (w, s)
      → Tracked (ready_in (recorded object) phase w s)
  unfolding ready_in
  ready_in-Tracked writing w s v = poll_state-Tracked w s v
  ready_in-Tracked writer_open w s v = v
  ready_in-Tracked closing w s v = v
  ready_in-Tracked writer_closed w s v = v
  ready_in-Tracked failed w s v = v
  ready_in-Tracked writer_released w s v = v

  flush_in-Tracked :
      (phase : WriterPhase) (w : WriterState F) (s : S × List Event)
      → IsTracked object (w, s)
      → Tracked (flush_in (recorded object) phase w s)
  unfolding flush_in
  flush_in-Tracked writing w s v = poll_state-Tracked w s v
  flush_in-Tracked closing w s v = poll_state-Tracked w s v
  flush_in-Tracked writer_open w s v = v
  flush_in-Tracked writer_closed w s v = v
  flush_in-Tracked failed w s v = v
  flush_in-Tracked writer_released w s v = v

  sent-Tracked :
      (log : List Event) (called : Result F × S)
      → Follows log writer_open
      → Tracked (sent (recorded object) (noted wrote log called))
  unfolding sent begin reset
  sent-Tracked log (ok future, s) f = record { follows = write_called f; fits = tt }
  sent-Tracked log (err e, s) f = record { follows = write_refused f; fits = tt }

  send_in-Tracked :
      (phase : WriterPhase) (chunk : C) (w : WriterState F) (s : S × List Event)
      → w.phase ≡ phase
      → IsTracked object (w, s)
      → Tracked (send_in (recorded object) phase chunk w s)
  unfolding send_in
  send_in-Tracked writer_open chunk w s p v =
      sent-Tracked s.1 (object.call_write chunk s.0) (subst (λ x. Follows s.1 x) p v.follows)
  send_in-Tracked writing chunk w s p v = v
  send_in-Tracked closing chunk w s p v = v
  send_in-Tracked writer_closed chunk w s p v = v
  send_in-Tracked failed chunk w s p v = v
  send_in-Tracked writer_released chunk w s p v = v

  unlocked-Tracked :
      (w : WriterState F) (log : List Event) (called : Result (Unit {0}) × S)
      → Follows log w.phase
      → Fits w.phase w.pending
      → Tracked (unlocked (recorded object) w (noted unlock_asked log called))
  unfolding unlocked reset
  unlocked-Tracked w log (ok _, s) f b = record { follows = unlock_granted f; fits = tt }
  unlocked-Tracked w log (err e, s) f b = record { follows = unlock_refused f; fits = b }

  abort_called-Tracked :
      (w : WriterState F) (log : List Event) (called : Result F × S)
      → Follows log w.phase
      → Fits w.phase w.pending
      → Tracked (abort_called (recorded object) w (noted abort_asked log called))
  unfolding abort_called reset
  abort_called-Tracked w log (ok future, s) f b = record { follows = abort_granted f; fits = tt }
  abort_called-Tracked w log (err e, s) f b = record { follows = abort_refused f; fits = b }

  aborted-Tracked :
      (w : WriterState F) (log : List Event) (answer : Poll (Result (Unit {0})) × (F × S))
      → w.phase ≡ failed
      → Follows log w.phase
      → Fits w.phase w.pending
      → Tracked ((aborted (recorded object) w (noted_poll log answer)).1)
  unfolding aborted reset
  aborted-Tracked w log (pending, (g, s)) p f b = record { follows = f; fits = b }
  aborted-Tracked w log (ready (ok _), (g, s)) p f b = record {
    follows = aborted_ok (subst (λ x. Follows log x) p f);
    fits = tt;
  }
  aborted-Tracked w log (ready (err e), (g, s)) p f b = record {
    follows =
        subst (λ x. Follows (settled false ∷ log) x) (sym p)
          (abort_failed (subst (λ x. Follows log x) p f));
    fits = b;
  }

  operate-IsTracked :
      (op : Operation object) (w : WriterState F) (s : S × List Event)
      → IsAllowed object op w
      → IsTracked object (w, s)
      → IsTracked object (operate object op w s)
  unfolding poll_ready poll_flush poll_close release_lock start_send start_abort poll_abort
  operate-IsTracked readies w s a v = ready_in-Tracked w.phase w s v
  operate-IsTracked flushes w s a v = flush_in-Tracked w.phase w s v
  operate-IsTracked closes w s a v = close_in-Tracked w.phase w s refl v
  operate-IsTracked unlocks w s a v =
      unlocked-Tracked w s.1 (object.call_release_lock s.0) v.follows v.fits
  operate-IsTracked (sends chunk) w s a v = send_in-Tracked w.phase chunk w s refl v
  operate-IsTracked (aborts reason) w s a v =
      abort_called-Tracked w s.1 (object.call_abort reason s.0) v.follows v.fits
  operate-IsTracked (awaits_abort future) w s a v =
      aborted-Tracked w s.1 (object.poll_future future s.0) a v.follows v.fits

  -- Whatever operations are made on a writer, in any order, and whatever its object answers: the
  -- phase is the one to which the calls and the settled promises lead by the rules of `Follows`,
  -- and a promise is held exactly while a chunk is written or the stream is closed.
  pub Reachable-IsTracked :
      (state : WriterState F × (S × List Event)) → Reachable object state → IsTracked object state
  unfolding new_writer
  Reachable-IsTracked _ (starts s) = record { follows = fresh; fits = tt }
  Reachable-IsTracked _ (moves {w = w} {s = s} {log = log} t reached) =
      let v = Reachable-IsTracked (w, (s, log)) reached in
      record { follows = v.follows; fits = v.fits }
  Reachable-IsTracked _ (steps {w = w} {s = s} op allowed reached) =
      operate-IsTracked op w s allowed (Reachable-IsTracked (w, s) reached)

  -- Whatever operations are made on a writer, in any order: when it has called for a write or for
  -- the close, granted or not, all that it had asked for before, and was granted, were writes,
  -- each of them written before the next call. So no call is made while a chunk is being written,
  -- and none after a close, an abort, a release or a failure.
  pub Reachable-Writes :
      (w : WriterState F) (s : S) (log : List Event) (granted : Bool)
      → Reachable object (w, (s, wrote granted ∷ log))
        ⊎ Reachable object (w, (s, close_asked granted ∷ log))
      → Writes false log
  Reachable-Writes w s log granted (inl reached) =
      write-Writes log w.phase granted
        ((Reachable-IsTracked (w, (s, wrote granted ∷ log)) reached).follows)
  Reachable-Writes w s log granted (inr reached) =
      close-Writes log w.phase granted
        ((Reachable-IsTracked (w, (s, close_asked granted ∷ log)) reached).follows)
