-- ===== src/Handle/Writer/Calls.antt =====
-- The calls that a writer of crates/guestjs-core/src/handle/stream.rs makes in the guest, and what
-- its promises gave, in the order in which they happen.
use guestjs.Prelude.{Bool, true, false, List, [], ◌∷◌}
use guestjs.Handle.Writer.{
  WriterPhase, writer_open, writing, closing, writer_closed, failed, writer_released,
}

-- With false, the guest has refused the call, or the promise was rejected.
pub data Event : Type 0 where
  wrote close_asked abort_asked unlock_asked settled : Bool → Event

-- The events of a writer, the last one first, with the phase that they lead to.
pub data Follows : List Event → WriterPhase → Type 0 where
  fresh : Follows [] writer_open
  write_called : {log : List Event} → Follows log writer_open → Follows (wrote true ∷ log) writing
  write_refused : {log : List Event} → Follows log writer_open → Follows (wrote false ∷ log) failed
  written : {log : List Event} → Follows log writing → Follows (settled true ∷ log) writer_open
  write_failed : {log : List Event} → Follows log writing → Follows (settled false ∷ log) failed
  close_called :
      {log : List Event} → Follows log writer_open → Follows (close_asked true ∷ log) closing
  close_refused :
      {log : List Event} → Follows log writer_open → Follows (close_asked false ∷ log) failed
  closed : {log : List Event} → Follows log closing → Follows (settled true ∷ log) writer_closed
  close_failed : {log : List Event} → Follows log closing → Follows (settled false ∷ log) failed
  abort_granted :
      {log : List Event} {phase : WriterPhase}
      → Follows log phase
      → Follows (abort_asked true ∷ log) failed
  abort_refused :
      {log : List Event} {phase : WriterPhase}
      → Follows log phase
      → Follows (abort_asked false ∷ log) phase
  aborted_ok : {log : List Event} → Follows log failed → Follows (settled true ∷ log) writer_closed
  abort_failed : {log : List Event} → Follows log failed → Follows (settled false ∷ log) failed
  unlock_granted :
      {log : List Event} {phase : WriterPhase}
      → Follows log phase
      → Follows (unlock_asked true ∷ log) writer_released
  unlock_refused :
      {log : List Event} {phase : WriterPhase}
      → Follows log phase
      → Follows (unlock_asked false ∷ log) phase

-- Chunks were taken one at a time, each of them written before the next one; the last one is
-- still being written if `unwritten`. Nothing else was asked for that the guest has granted.
abbrev pub Writes : Bool → List Event → Type 0
Writes false [] = Unit {0}
Writes false (settled true ∷ log) = Writes true log
Writes true (wrote true ∷ log) = Writes false log
Writes unwritten (abort_asked false ∷ log) = Writes unwritten log
Writes unwritten (unlock_asked false ∷ log) = Writes unwritten log
Writes _ _ = ⊥

abbrev WritesIn : WriterPhase → List Event → Type 0
WritesIn writer_open log = Writes false log
WritesIn writing log = Writes true log
WritesIn _ log = Unit {0}

abort_refused-WritesIn :
    (phase : WriterPhase) (log : List Event)
    → WritesIn phase log
    → WritesIn phase (abort_asked false ∷ log)
abort_refused-WritesIn writer_open log w = w
abort_refused-WritesIn writing log w = w
abort_refused-WritesIn closing log w = tt
abort_refused-WritesIn writer_closed log w = tt
abort_refused-WritesIn failed log w = tt
abort_refused-WritesIn writer_released log w = tt

unlock_refused-WritesIn :
    (phase : WriterPhase) (log : List Event)
    → WritesIn phase log
    → WritesIn phase (unlock_asked false ∷ log)
unlock_refused-WritesIn writer_open log w = w
unlock_refused-WritesIn writing log w = w
unlock_refused-WritesIn closing log w = tt
unlock_refused-WritesIn writer_closed log w = tt
unlock_refused-WritesIn failed log w = tt
unlock_refused-WritesIn writer_released log w = tt

pub Follows-WritesIn :
    (log : List Event) (phase : WriterPhase) → Follows log phase → WritesIn phase log
Follows-WritesIn _ _ fresh = tt
Follows-WritesIn _ _ (write_called f) = Follows-WritesIn _ _ f
Follows-WritesIn _ _ (written f) = Follows-WritesIn _ _ f
Follows-WritesIn (_ ∷ log) phase (abort_refused f) =
    abort_refused-WritesIn phase log (Follows-WritesIn log phase f)
Follows-WritesIn (_ ∷ log) phase (unlock_refused f) =
    unlock_refused-WritesIn phase log (Follows-WritesIn log phase f)
Follows-WritesIn _ _ (write_refused f) = tt
Follows-WritesIn _ _ (write_failed f) = tt
Follows-WritesIn _ _ (close_called f) = tt
Follows-WritesIn _ _ (close_refused f) = tt
Follows-WritesIn _ _ (closed f) = tt
Follows-WritesIn _ _ (close_failed f) = tt
Follows-WritesIn _ _ (abort_granted f) = tt
Follows-WritesIn _ _ (aborted_ok f) = tt
Follows-WritesIn _ _ (abort_failed f) = tt
Follows-WritesIn _ _ (unlock_granted f) = tt

-- Of a writer whose last event was the call of a write, or of the close, granted or not.
pub write-Writes :
    (log : List Event) (phase : WriterPhase) (granted : Bool)
    → Follows (wrote granted ∷ log) phase
    → Writes false log
write-Writes log phase _ (write_called f) = Follows-WritesIn log writer_open f
write-Writes log phase _ (write_refused f) = Follows-WritesIn log writer_open f

pub close-Writes :
    (log : List Event) (phase : WriterPhase) (granted : Bool)
    → Follows (close_asked granted ∷ log) phase
    → Writes false log
close-Writes log phase _ (close_called f) = Follows-WritesIn log writer_open f
close-Writes log phase _ (close_refused f) = Follows-WritesIn log writer_open f
