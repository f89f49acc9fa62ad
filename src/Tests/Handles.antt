-- ===== src/Tests/Handles.antt =====
-- Runs of crates/guestjs-core/src/handle/. A promise of the tests is a number of polls to come.
use guestjs.Prelude.{ℕ, ◌≡◌, refl, zero, suc, Option, none, some, List, [], ◌∷◌, arith, ◌≢◌}
use guestjs.Errors.{Result, ok}
use guestjs.Handle.Buffers.Writes.{Wrote, write_bytes-Wrote}
use guestjs.Futures.{Poll, pending, ready}
use guestjs.Handle.Reader.{
  ReaderObject, Reader, new_reader, read, release_lock, reader_done, reader_open,
}
use guestjs.Handle.Reader.Fused.{no_read, one_read, Unmoved, read-Unmoved}
use guestjs.Handle.Reader.Delivery.{
  Fetching, waits, gives, ends, Stream, Delivers, new_reader-Delivers,
}

abbrev poll_queue : ℕ → List ℕ → Poll (Result (Option ℕ)) × (ℕ × List ℕ)
poll_queue zero [] = (ready (ok none), (0, []))
poll_queue zero (chunk ∷ chunks) = (ready (ok (some chunk)), (0, chunks))
poll_queue (suc polls) chunks = (pending, (polls, chunks))

-- a stream of the chunks that are left, each ready at the second poll
abbrev queue : ReaderObject (List ℕ) ℕ ℕ
queue = record {
  call_read = λ s. (ok 1, s);
  call_release_lock = λ s. (ok tt, s);
  poll_future = poll_queue;
}

queue-Fetching : (f : ℕ) (s : List ℕ) → Fetching queue (λ t. t) (λ g t. t) (λ g t. g) f s
queue-Fetching zero [] = ends 0 [] refl refl
queue-Fetching zero (chunk ∷ chunks) = gives chunk 0 chunks refl refl
queue-Fetching (suc polls) s = waits polls s refl (omega arith) refl

abbrev queue_stream : Stream queue
queue_stream = record {
  items = λ s. s;
  waiting = λ f s. s;
  delay = λ f s. f;
  calls = λ s. (1, s, refl, refl);
  polls = queue-Fetching;
}

new_reader-Delivers_example : Delivers queue new_reader (7 ∷ (8 ∷ [])) (7 ∷ (8 ∷ []))
new_reader-Delivers_example = new_reader-Delivers queue queue_stream (7 ∷ (8 ∷ []))

abbrev ended : Reader ℕ
ended = record { pending = none; phase = reader_done }

abbrev last_poll : Reader ℕ
last_poll = record { pending = some 0; phase = reader_open }

last_read : read queue last_poll [] ≡ (ready (ok none), (ended, []))
unfolding read guestjs.Handle.Reader.read_in guestjs.Handle.Reader.poll_or_start
    guestjs.Handle.Reader.poll_read guestjs.Handle.Reader.keep_read
last_read = refl

ended_again : read queue ended [] ≡ (ready (ok none), (ended, []))
unfolding read guestjs.Handle.Reader.read_in
ended_again = refl

not_chunk : (chunk : ℕ) → ok none ≢ ok (some chunk)
not_chunk chunk h = absurd (ground arith)

read-Unmoved_example : Unmoved queue (ready (ok none)) ended [] (ready (ok none) ∷ []) ended []
read-Unmoved_example =
    read-Unmoved queue last_poll ended ended [] [] [] (ok none) (ready (ok none) ∷ []) refl
      last_read not_chunk (one_read ended_again no_read)

first_poll : read queue new_reader [] ≡ (pending, (last_poll, []))
unfolding read guestjs.Handle.Reader.read_in guestjs.Handle.Reader.poll_or_start
    guestjs.Handle.Reader.start_read guestjs.Handle.Reader.poll_read guestjs.Handle.Reader.keep_read
    new_reader
first_poll = refl

write_bytes-Wrote_example : Wrote (λ n. []) 1 (7 ∷ (8 ∷ [])) (1 ∷ (2 ∷ (3 ∷ (4 ∷ []))))
write_bytes-Wrote_example =
    write_bytes-Wrote (λ n. []) 1 (7 ∷ (8 ∷ [])) (1 ∷ (2 ∷ (3 ∷ (4 ∷ [])))) (omega arith)
