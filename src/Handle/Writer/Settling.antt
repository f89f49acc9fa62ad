-- ===== src/Handle/Writer/Settling.antt =====
-- Closing a writer of crates/guestjs-core/src/handle/stream.rs comes to an end.
use guestjs.Prelude.{◌≡◌, refl, ap, ◌∙◌, Option, none, some, ◌⊎◌, inl, inr}
use guestjs.Errors.{Result, ok, err, unexpected, literal}
use guestjs.Futures.{pending, ready, Settles, settles_now, settles_later}
use guestjs.Handle.Writer.{
  WriterPhase, writer_open, writing, closing, writer_closed, failed, writer_released, WriterObject,
  WriterState, begin, reset, settled_phase, polled, poll_pending, poll_state, close_begun,
  start_close, close_written, close_in, poll_close,
}
use guestjs.Handle.Writer.Runs.{Fits}

-- what a result says of the phase that a close leaves
abbrev pub Explains : Result (Unit {0}) → WriterPhase → Type 0
Explains (ok _) phase = phase ≡ writer_closed
Explains (err e) phase = (phase ≡ failed) ⊎ (phase ≡ writer_released)

module _ {S F C R : Type 0} (object : WriterObject S F C R) where
  -- Finitely many polls of a close, one after the other, end with a result that explains the phase.
  pub data Closes : WriterState F → S → Type 0 where
    closes_now :
        {w v : WriterState F} {s t : S} (result : Result (Unit {0}))
        → poll_close object w s ≡ (ready result, (v, t))
        → Explains result v.phase
        → Closes w s
    closes_later :
        {w v : WriterState F} {s t : S}
        → poll_close object w s ≡ (pending, (v, t))
        → Closes v t
        → Closes w s

  same_close :
      (w v : WriterState F) (s t : S)
      → poll_close object w s ≡ poll_close object v t
      → Closes v t
      → Closes w s
  same_close w v s t e (closes_now result h x) = closes_now result (e ∙ h) x
  same_close w v s t e (closes_later h rest) = closes_later (e ∙ h) rest

  closed_phase : (result : Result (Unit {0})) → Explains result (settled_phase result closing)
  unfolding settled_phase
  closed_phase (ok _) = refl
  closed_phase (err e) = inl refl

  closing-Closes : (f : F) (s : S) → Settles object.poll_future f s → Closes (begin closing f) s
  unfolding poll_close close_in poll_state poll_pending begin polled reset
  closing-Closes f s (settles_now result h) =
      closes_now result (ap (polled object closing) h) (closed_phase result)
  closing-Closes f s (settles_later {g = g} {t = t} h rest) =
      closes_later (ap (polled object closing) h) (closing-Closes g t rest)

  module _
      (granted-Settles : (s t : S) (f : F)
        → object.call_close s ≡ (ok f, t)
        → Settles object.poll_future f t) where
    called-Closes :
        (w : WriterState F) (s : S) (called : Result F × S)
        → poll_close object w s ≡ close_begun object called
        → ((f : F) → called.0 ≡ ok f → Settles object.poll_future f (called.1))
        → Closes w s
    unfolding close_begun poll_close close_in begin reset
    called-Closes w s (ok f, t) e settles =
        same_close w (begin closing f) s t e (closing-Closes f t (settles f refl))
    called-Closes w s (err x, t) e settles = closes_now (err x) e (inl refl)

    open-Closes :
        (w : WriterState F) (s t : S) → poll_close object w s ≡ start_close object t → Closes w s
    unfolding start_close
    open-Closes w s t e = called-Closes w s (object.call_close t) e (λ f h.
        granted-Settles t (object.call_close t).1 f (ap (λ x. (x, (object.call_close t).1)) h))

    writing_now :
        (w : WriterState F) (s t : S) (g : F) (result : Result (Unit {0}))
        → poll_close object w s
          ≡ close_written object (polled object writing (ready result, (g, t)))
        → Closes w s
    unfolding close_written polled settled_phase reset
    writing_now w s t g (ok _) e = open-Closes w s t e
    writing_now w s t g (err x) e = closes_now (err x) e (inl refl)

    writing-Closes : (f : F) (s : S) → Settles object.poll_future f s → Closes (begin writing f) s
    unfolding poll_close close_in poll_state poll_pending begin polled close_written
    writing-Closes f s (settles_now {g = g} {t = t} result h) =
        writing_now (begin writing f) s t g result
          (ap (λ x. close_written object (polled object writing x)) h)
    writing-Closes f s (settles_later {g = g} {t = t} h rest) =
        closes_later (ap (λ x. close_written object (polled object writing x)) h)
          (writing-Closes g t rest)

    held-Closes :
        (phase : WriterPhase) (held : Option F) (s : S)
        → Fits phase held
        → ((f : F) → held ≡ some f → Settles object.poll_future f s)
        → Closes (record { phase = phase; pending = held }) s
    unfolding poll_close close_in begin
    held-Closes writer_open held s b settles =
        open-Closes (record { phase = writer_open; pending = held }) s s refl
    held-Closes writing (some f) s b settles = writing-Closes f s (settles f refl)
    held-Closes writing none s b settles = absurd b
    held-Closes closing (some f) s b settles = closing-Closes f s (settles f refl)
    held-Closes closing none s b settles = absurd b
    held-Closes writer_closed held s b settles = closes_now (ok tt) refl refl
    held-Closes failed held s b settles =
        closes_now (err (unexpected (literal "writer is not open"))) refl (inl refl)
    held-Closes writer_released held s b settles =
        closes_now (err (unexpected (literal "writer is not open"))) refl (inr refl)

  -- Where the promise of a granted close settles after finitely many polls, and so does the one
  -- that the writer holds, and the writer holds a promise exactly while a chunk is written or the
  -- stream is closed: a close returns after finitely many polls, whatever the phase. With ok, the
  -- writer is closed; with an error, it has failed or was released.
  pub close-Closes :
      (w : WriterState F) (s : S)
      → Fits w.phase w.pending
      → ((f : F) → w.pending ≡ some f → Settles object.poll_future f s)
      → ((s t : S) (f : F) → object.call_close s ≡ (ok f, t) → Settles object.poll_future f t)
      → Closes w s
  close-Closes w s b settles granted = held-Closes granted w.phase w.pending s b settles
