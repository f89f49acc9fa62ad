-- ===== src/Host/Shared.antt =====
-- `SharedStream` of crates/guestjs-core/src/host/stream.rs: a stream of the host whose items the
-- guest asks for, as often as it likes, before the first one is there. A call of `next` makes a
-- future that waits for the future of the call before, known here by its place in the list of
-- calls; the channel between the two is the question whether that one is finished. A future that
-- was ready is not polled again, and here it would be pending. A future that is dropped before it
-- is ready is left out.
pub mod Order
use guestjs.Prelude.{ℕ, zero, suc, Bool, true, false, Option, none, some, List, [], ◌∷◌, push}
use guestjs.Text.{Str}
use guestjs.Errors.{Result, ok, err, borrow, exclusive}
use guestjs.Futures.{Poll, pending, ready}

-- Where the future of a call stands: it waits for its turn, polls the stream, or was ready.
pub data Turn (T : Type 0) : Type 0 where
  waiting_turn polling_turn : Turn T
  finished_turn : Option (Result T) → Turn T

-- `X` is the type of the stream.
pub record SharedStream (X T : Type 0) : Type 0 where
  pub stream : Option X
  pub turns : List (Turn T)

module _ {X T : Type 0} where
  unfoldable pub new_shared : X → SharedStream X T
  new_shared stream = record { stream = some stream; turns = [] }

  -- a call, up to its future
  unfoldable pub next_call : SharedStream X T → SharedStream X T
  next_call h = record h { turns = push h.turns waiting_turn }

  -- The cell is borrowed while the stream is polled.
  unfoldable pub close_shared : Bool → Str → SharedStream X T → Result (Unit {0}) × SharedStream X T
  close_shared true type_name h = (err (borrow exclusive type_name), h)
  close_shared false type_name h = (ok tt, record h { stream = none })

unfoldable pub is_finished : {T : Type 0} → Turn T → Bool
is_finished (finished_turn result) = true
is_finished _ = false

unfoldable pub turn_after : {T : Type 0} → Poll (Option (Result T)) → Turn T
turn_after pending = polling_turn
turn_after (ready result) = finished_turn result

-- the stream after a poll: dropped at its end and after an error
unfoldable pub stream_after : {X T : Type 0} → Poll (Option (Result T)) → X → Option X
stream_after pending stream = some stream
stream_after (ready (some (ok item))) stream = some stream
stream_after (ready (some (err e))) stream = none
stream_after (ready none) stream = none

module _ {S X T : Type 0} (poll_next : X → S → Poll (Option (Result T)) × (X × S)) where
  unfoldable pub poll_stream : Option X → S → Poll (Option (Result T)) × (Option X × S)
  unfolding stream_after
  poll_stream none s = (ready none, (none, s))
  poll_stream (some stream) s =
      let (answer, left) = poll_next stream s in (answer, (stream_after answer left.0, left.1))

  unfoldable pub take_turn : Option X → S → Poll (Option (Result T)) × (Turn T × (Option X × S))
  unfolding poll_stream turn_after
  take_turn stream s =
      let (answer, left) = poll_stream stream s in (answer, (turn_after answer, left))

  -- one poll of a future, told whether the one before it is finished
  unfoldable pub poll_turn :
      Bool → Turn T → Option X → S → Poll (Option (Result T)) × (Turn T × (Option X × S))
  unfolding take_turn
  poll_turn true waiting_turn stream s = take_turn stream s
  poll_turn false waiting_turn stream s = (pending, (waiting_turn, (stream, s)))
  poll_turn before polling_turn stream s = take_turn stream s
  poll_turn before (finished_turn result) stream s = (pending, (finished_turn result, (stream, s)))

  unfoldable pub poll_at :
      ℕ
      → Bool
      → List (Turn T)
      → Option X
      → S
      → Poll (Option (Result T)) × (List (Turn T) × (Option X × S))
  unfolding poll_turn is_finished
  poll_at call before [] stream s = (pending, ([], (stream, s)))
  poll_at zero before (turn ∷ turns) stream s =
      let (answer, left) = poll_turn before turn stream s in (answer, (left.0 ∷ turns, left.1))
  poll_at (suc call) before (turn ∷ turns) stream s =
      let (answer, left) = poll_at call (is_finished turn) turns stream s in
      (answer, (turn ∷ left.0, left.1))

  -- one poll of the future of a call; the first call has nothing to wait for
  unfoldable pub poll_call :
      ℕ → SharedStream X T → S → Poll (Option (Result T)) × (SharedStream X T × S)
  unfolding poll_at
  poll_call call h s =
      let (answer, left) = poll_at call true h.turns h.stream s in
      (answer, (record { stream = left.1.0; turns = left.0 }, left.1.1))
