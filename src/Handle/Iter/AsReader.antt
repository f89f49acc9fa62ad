-- ===== src/Handle/Iter/AsReader.antt =====
-- An asynchronous iterator of crates/guestjs-core/src/handle/iter.rs is a reader of
-- handle/stream.rs that is never released.
use guestjs.Prelude.{◌≡◌, refl, sym, ap, Bool, true, false, Option, none, some}
use guestjs.Errors.{Result, ok, err, closed}
use guestjs.Futures.{Poll, pending, ready}
use guestjs.Handle.Reader.{
  ReaderPhase, reader_open, reader_done, ReaderObject, Reader, read, keep_read, start_read,
  poll_read, poll_or_start, read_in,
}
use guestjs.Handle.Iter.{
  AsyncObject, AsyncIter, next_async, next_async_in, step_or_start, start_step, poll_step,
  keep_step, is_last,
}

abbrev pub phase_of : Bool → ReaderPhase
phase_of true = reader_done
phase_of false = reader_open

abbrev pub as_reader : {F : Type 0} → AsyncIter F → Reader F
as_reader it = record { pending = it.pending; phase = phase_of it.done }

module _ {S F G T : Type 0} (object : AsyncObject S F G T) where
  -- the object as a reader's, whose lock cannot be released
  abbrev pub as_object : ReaderObject S F T
  as_object = record {
    call_read = object.call_next;
    call_release_lock = λ s. (err closed, s);
    poll_future = object.poll_future;
  }

  abbrev pub seen :
      Poll (Result (Option T)) × (AsyncIter F × S) → Poll (Result (Option T)) × (Reader F × S)
  seen (answer, (it, s)) = (answer, (as_reader it, s))

  as_reader-keep_step :
      (answer : Poll (Result (Option T))) (f : F) (it : AsyncIter F)
      → it.done ≡ false
      → as_reader (keep_step object answer f it) ≡ keep_read as_object answer f (as_reader it)
  unfolding keep_step keep_read is_last
  as_reader-keep_step pending f it e = refl
  as_reader-keep_step (ready (ok (some chunk))) f it e =
      ap (λ d. record { pending = none; phase = phase_of d }) (sym e)
  as_reader-keep_step (ready (ok none)) f it e = refl
  as_reader-keep_step (ready (err x)) f it e = refl

  seen-poll_step :
      (it : AsyncIter F) (f : F) (s : S)
      → it.done ≡ false
      → seen (poll_step object it f s) ≡ poll_read as_object (as_reader it) f s
  unfolding poll_step poll_read
  seen-poll_step it f s e =
      let (answer, left) = object.poll_future f s in
      ap (λ x. (answer, (x, left.1))) (as_reader-keep_step answer left.0 it e)

  seen-start_step :
      (it : AsyncIter F) (called : Result F × S)
      → it.done ≡ false
      → seen (start_step object it called) ≡ start_read as_object (as_reader it) called
  unfolding start_step start_read
  seen-start_step it (ok f, s) e = seen-poll_step it f s e
  seen-start_step it (err x, s) e = refl

  seen-step_or_start :
      (it : AsyncIter F) (p : Option F) (s : S)
      → it.done ≡ false
      → seen (step_or_start object it p s) ≡ poll_or_start as_object (as_reader it) p s
  unfolding step_or_start poll_or_start
  seen-step_or_start it none s e = seen-start_step it (object.call_next s) e
  seen-step_or_start it (some f) s e = seen-poll_step it f s e

  seen-next_async_in :
      (done : Bool) (it : AsyncIter F) (s : S)
      → it.done ≡ done
      → seen (next_async_in object done it s) ≡ read_in as_object (phase_of done) (as_reader it) s
  unfolding next_async_in read_in
  seen-next_async_in true it s e = refl
  seen-next_async_in false it s e = seen-step_or_start it it.pending s e

  -- A poll of an asynchronous iterator answers, and leaves the guest, as a read does of the reader
  -- that holds the same promise and is done when the iterator is; and it leaves the iterator that
  -- corresponds to the reader which the read leaves.
  pub seen-next_async :
      (it : AsyncIter F) (s : S) → seen (next_async object it s) ≡ read as_object (as_reader it) s
  unfolding next_async read
  seen-next_async it s = seen-next_async_in it.done it s refl
