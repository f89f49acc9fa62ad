-- ===== src/Handle/Reader.antt =====
-- `Reader` of crates/guestjs-core/src/handle/stream.rs. The methods of the guest's reader object
-- and the polls of their promises are a record of functions on the guest's state `S`. `read` is
-- one poll of the future of the same name, which keeps its progress in the reader: a second poll
-- of that future goes on as a new call does.
pub mod Fused
pub mod Delivery
use guestjs.Prelude.{Option, none, some}
use guestjs.Errors.{Result, ok, err, unexpected, literal}
use guestjs.Futures.{Poll, pending, ready, Polling}

pub data ReaderPhase : Type 0 where
  reader_open reader_done reader_released : ReaderPhase

-- The object in the guest; a future of type `F` awaits a chunk of type `T`.
pub record ReaderObject (S F T : Type 0) : Type 0 where
  pub call_read : S → Result F × S
  pub call_release_lock : S → Result (Unit {0}) × S
  pub poll_future : Polling S F (Option T)

pub record Reader (F : Type 0) : Type 0 where
  pub pending : Option F
  pub phase : ReaderPhase

unfoldable pub new_reader : {F : Type 0} → Reader F
new_reader = record { pending = none; phase = reader_open }

module _ {S F T : Type 0} (object : ReaderObject S F T) where
  -- the reader after one poll of its future
  unfoldable pub keep_read : Poll (Result (Option T)) → F → Reader F → Reader F
  keep_read pending future r = record r { pending = some future }
  keep_read (ready (ok (some chunk))) future r = record r { pending = none }
  keep_read (ready (ok none)) future r = record r { pending = none; phase = reader_done }
  keep_read (ready (err e)) future r = record r { pending = none; phase = reader_done }

  unfoldable pub poll_read : Reader F → F → S → Poll (Result (Option T)) × (Reader F × S)
  unfolding keep_read
  poll_read r future s =
      let (answer, left) = object.poll_future future s in
      (answer, (keep_read answer left.0 r, left.1))

  -- with the promise of a new call of `read`
  unfoldable pub start_read : Reader F → Result F × S → Poll (Result (Option T)) × (Reader F × S)
  unfolding poll_read
  start_read r (ok future, s) = poll_read r future s
  start_read r (err e, s) = (ready (err e), (record r { phase = reader_done }, s))

  unfoldable pub poll_or_start : Reader F → Option F → S → Poll (Result (Option T)) × (Reader F × S)
  unfolding start_read
  poll_or_start r none s = start_read r (object.call_read s)
  poll_or_start r (some future) s = poll_read r future s

  unfoldable pub read_in : ReaderPhase → Reader F → S → Poll (Result (Option T)) × (Reader F × S)
  unfolding poll_or_start
  read_in reader_released r s =
      (ready (err (unexpected (literal "reader lock was released"))), (r, s))
  read_in reader_done r s = (ready (ok none), (r, s))
  read_in reader_open r s = poll_or_start r r.pending s

  unfoldable pub read : Reader F → S → Poll (Result (Option T)) × (Reader F × S)
  unfolding read_in
  read r s = read_in r.phase r s

  unfoldable pub released_by : Reader F → Result (Unit {0}) × S → Result (Unit {0}) × (Reader F × S)
  released_by r (ok _, s) = (ok tt, (record r { pending = none; phase = reader_released }, s))
  released_by r (err e, s) = (err e, (r, s))

  unfoldable pub release_lock : Reader F → S → Result (Unit {0}) × (Reader F × S)
  unfolding released_by
  release_lock r s = released_by r (object.call_release_lock s)
