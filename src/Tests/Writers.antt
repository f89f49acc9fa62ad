-- ===== src/Tests/Writers.antt =====
-- Runs of the writer of crates/guestjs-core/src/handle/stream.rs and of the iterators of
-- handle/iter.rs. A promise of the tests is a number of polls to come.
use guestjs.Prelude.{ℕ, ◌≡◌, refl, zero, suc, true, false, Option, none, some, List, [], ◌∷◌, inl}
use guestjs.Errors.{Result, ok, err, closed}
use guestjs.Futures.{Poll, pending, ready, Settles, settles_now, settles_later}
use guestjs.Handle.Writer.{WriterObject, WriterState, new_writer, writing, closing, writer_open}
use guestjs.Handle.Writer.Calls.{wrote, settled, Writes}
use guestjs.Handle.Writer.Runs.{sends, flushes, operate, Reachable, starts, steps, IsTracked}
use guestjs.Handle.Writer.Refines.{Reachable-IsTracked, Reachable-Writes}
use guestjs.Handle.Writer.Settling.{Closes, close-Closes}
use guestjs.Handle.Iter.{
  IteratorObject, new_iter, close_iter, AsyncObject, new_async_iter, next_async,
}
use guestjs.Handle.Iter.Drained.{throws, gives, collect, collect-Gives}
use guestjs.Handle.Iter.AsReader.{as_object, as_reader, seen, seen-next_async}
use guestjs.Handle.Reader.{read}

abbrev poll_countdown : ℕ → List ℕ → Poll (Result (Unit {0})) × (ℕ × List ℕ)
poll_countdown zero s = (ready (ok tt), (0, s))
poll_countdown (suc polls) s = (pending, (polls, s))

-- a stream that keeps what is written to it
abbrev sheet : WriterObject (List ℕ) ℕ ℕ ℕ
sheet = record {
  call_write = λ chunk s. (ok 0, chunk ∷ s);
  call_close = λ s. (ok 1, s);
  call_abort = λ reason s. (err closed, s);
  call_release_lock = λ s. (ok tt, s);
  poll_future = poll_countdown;
}

-- a chunk is written, and another one is handed over
after_two : Reachable sheet (
    operate sheet
      (sends 6)
      (operate sheet flushes
        (operate sheet (sends 5) new_writer ([], [])).0
        (operate sheet (sends 5) new_writer ([], [])).1).0
      (operate sheet flushes
        (operate sheet (sends 5) new_writer ([], [])).0
        (operate sheet (sends 5) new_writer ([], [])).1).1)
after_two = steps (sends 6) tt (steps flushes tt (steps (sends 5) tt (starts [])))

abbrev written_two : WriterState ℕ
written_two = record { phase = writing; pending = some 0 }

two_reached :
    Reachable sheet (written_two, (6 ∷ (5 ∷ []), wrote true ∷ (settled true ∷ (wrote true ∷ []))))
unfolding new_writer guestjs.Handle.Writer.start_send guestjs.Handle.Writer.poll_flush
two_reached = after_two

Reachable-IsTracked_example :
    IsTracked sheet (written_two, (6 ∷ (5 ∷ []), wrote true ∷ (settled true ∷ (wrote true ∷ []))))
Reachable-IsTracked_example =
    Reachable-IsTracked sheet
      (written_two, (6 ∷ (5 ∷ []), wrote true ∷ (settled true ∷ (wrote true ∷ [])))) two_reached

Reachable-Writes_example : Writes false (settled true ∷ (wrote true ∷ []))
Reachable-Writes_example =
    Reachable-Writes sheet written_two (6 ∷ (5 ∷ [])) (settled true ∷ (wrote true ∷ [])) true
      (inl two_reached)

countdown-Settles : (f : ℕ) (s : List ℕ) → Settles poll_countdown f s
countdown-Settles zero s = settles_now (ok tt) refl
countdown-Settles (suc polls) s = settles_later refl (countdown-Settles polls s)

close-Closes_example : Closes sheet written_two []
close-Closes_example =
    close-Closes sheet written_two [] tt (λ f h. countdown-Settles f [])
      (λ s t f h. countdown-Settles f t)

abbrev step_list : List ℕ → Result (Option ℕ) × List ℕ
step_list [] = (err closed, [])
step_list (x ∷ xs) = (ok (some x), xs)

-- an iterator over a list that throws at its end
abbrev throwing : IteratorObject (List ℕ) ℕ
throwing = record { step = step_list; close_iterator = λ s. (ok tt, s) }

collect-Gives_example :
    (collect throwing 3 new_iter (4 ∷ [])
      ≡ (ok 4 ∷ (err closed ∷ []), (record { done = true }, [])))
    × (close_iter throwing (record { done = true }) [] ≡ (ok tt, []))
collect-Gives_example =
    collect-Gives throwing (4 ∷ []) [] (4 ∷ []) (some closed) 1 (gives 4 refl (throws closed refl))

abbrev waiting_list : AsyncObject (List ℕ) ℕ ℕ ℕ
waiting_list = record {
  call_next = λ s. (ok 0, s);
  poll_future =
      λ f s. elim s [ [] ↦ (ready (ok none), (f, [])) | x ∷ xs ↦ (ready (ok (some x)), (f, xs)) ];
  call_close = λ s. (ok 0, s);
  poll_closing = λ f s. (ready (ok tt), (f, s));
}

seen-next_async_example :
    seen waiting_list (next_async waiting_list new_async_iter (3 ∷ []))
    ≡ read (as_object waiting_list) (as_reader new_async_iter) (3 ∷ [])
seen-next_async_example = seen-next_async waiting_list new_async_iter (3 ∷ [])
