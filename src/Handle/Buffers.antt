-- ===== src/Handle/Buffers.antt =====
-- `write_bytes` of crates/guestjs-core/src/handle/protocol.rs, on the bytes of a buffer that the
-- guest has lent. `usize` has 64 bits; `to_string` is the standard library's.
pub mod Writes
use guestjs.Prelude.{
  ℕ, zero, suc, ◌+◌, ◌-◌, ◌^◌, ltb, leb, if◌then◌else◌, Option, none, some, List, [], ◌∷◌, length,
}
use guestjs.Text.{Str}
use guestjs.Errors.{Result, ok, err, conversion, format}

unfoldable pub checked_add : ℕ → ℕ → Option ℕ
checked_add a b = if ltb (a + b) (2 ^ 64) then some (a + b) else none

-- `Option::filter`, with the test of the end
unfoldable pub within : ℕ → Option ℕ → Option ℕ
within len none = none
within len (some end) = if leb end len then some end else none

-- `copy_from_slice` into the slice of the target from an offset on, as long as the bytes
unfoldable pub copy_at : ℕ → List ℕ → List ℕ → List ℕ
copy_at zero [] target = target
copy_at zero (byte ∷ bytes) [] = []
copy_at zero (byte ∷ bytes) (old ∷ target) = byte ∷ copy_at 0 bytes target
copy_at (suc offset) bytes [] = []
copy_at (suc offset) bytes (old ∷ target) = old ∷ copy_at offset bytes target

module _ (to_string : ℕ → Str) where
  unfoldable pub write_to : Option ℕ → ℕ → List ℕ → List ℕ → Result (Unit {0}) × List ℕ
  unfolding copy_at
  write_to (some end) offset bytes target = (ok tt, copy_at offset bytes target)
  write_to none offset bytes target = (
    err (
        conversion
          (format "at most {} bytes at byte offset {byte_offset}"
            (to_string (length target - offset) ∷ (to_string offset ∷ [])))
          (format "{} bytes" (to_string (length bytes) ∷ []))),
    target,
  )

  unfoldable pub write_bytes : ℕ → List ℕ → List ℕ → Result (Unit {0}) × List ℕ
  unfolding write_to within checked_add
  write_bytes offset bytes target =
      write_to (within (length target) (checked_add offset (length bytes))) offset bytes target
