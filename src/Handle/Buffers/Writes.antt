-- ===== src/Handle/Buffers/Writes.antt =====
-- What `write_bytes` of crates/guestjs-core/src/handle/protocol.rs writes, and when it refuses.
use guestjs.Prelude.{
  ℕ, zero, suc, ◌≡◌, refl, sym, ap, ◌∙◌, ◌+◌, ◌-◌, ◌^◌, ◌≤◌, ◌<◌, ltb, leb, if◌then◌else◌, none,
  some, List, [], ◌∷◌, ◌++◌, length, length-append, arith, inl, inr, Bool-cases, true, false,
}
use guestjs.Text.{Str}
use guestjs.Errors.{ok, err, conversion, format}
use guestjs.Handle.Buffers.{checked_add, within, copy_at, write_to, write_bytes}

copy_at-here :
    (bytes old after : List ℕ)
    → length old ≡ length bytes
    → copy_at 0 bytes (old ++ after) ≡ bytes ++ after
unfolding copy_at
copy_at-here [] [] after e = refl
copy_at-here [] (x ∷ old) after e = absurd (omega (arith, e))
copy_at-here (b ∷ bytes) [] after e = absurd (omega (arith, e))
copy_at-here (b ∷ bytes) (x ∷ old) after e =
    ap (λ t. b ∷ t) (copy_at-here bytes old after (omega (arith, e)))

copy_at-append :
    (before bytes old after : List ℕ)
    → length old ≡ length bytes
    → copy_at (length before) bytes (before ++ (old ++ after)) ≡ before ++ (bytes ++ after)
unfolding copy_at
copy_at-append [] bytes old after e = copy_at-here bytes old after e
copy_at-append (x ∷ before) bytes old after e =
    ap (λ t. x ∷ t) (copy_at-append before bytes old after e)

-- A list that is long enough has so many elements at its start.
split_at :
    (n : ℕ) (target : List ℕ)
    → n ≤ length target
    → (before : List ℕ) × (after : List ℕ) × (target ≡ before ++ after) × (length before ≡ n)
split_at zero target l = ([], target, refl, refl)
split_at (suc n) [] l = absurd (omega (arith, l))
split_at (suc n) (x ∷ target) l =
    let (before, after, e, same) = split_at n target (omega (arith, l)) in
    (x ∷ before, after, ap (λ t. x ∷ t) e, ap suc same)

-- What a write does with the target: it puts the bytes in the place of as many others, that many
-- bytes from the start, or refuses and leaves the target alone.
pub data Wrote (to_string : ℕ → Str) (offset : ℕ) (bytes target : List ℕ) : Type 0 where
  replaced :
      (before old after : List ℕ)
      → length before ≡ offset
      → length old ≡ length bytes
      → target ≡ before ++ (old ++ after)
      → write_bytes to_string offset bytes target ≡ (ok tt, before ++ (bytes ++ after))
      → Wrote to_string offset bytes target
  refused :
      length target < offset + length bytes
      → write_bytes to_string offset bytes target ≡ (
        err (
            conversion
              (format "at most {} bytes at byte offset {byte_offset}"
                (to_string (length target - offset) ∷ (to_string offset ∷ [])))
              (format "{} bytes" (to_string (length bytes) ∷ []))),
        target,
      )
      → Wrote to_string offset bytes target

module _ (to_string : ℕ → Str) where
  fitting :
      (offset len n : ℕ)
      → len < 2 ^ 64
      → offset + n ≤ len
      → within len (checked_add offset n) ≡ some (offset + n)
  unfolding within checked_add
  fitting offset len n small l =
      let first : ltb (offset + n) (2 ^ 64) ≡ true = ground (arith, small, l) in
      let second : leb (offset + n) len ≡ true = ground (arith, l) in
      ap (λ b. within len (if b then some (offset + n) else none)) first
      ∙ ap (λ b. if b then some (offset + n) else none) second

  leaving : (offset len n : ℕ) → len < offset + n → within len (checked_add offset n) ≡ none
  unfolding within checked_add
  leaving offset len n l = elim (Bool-cases (ltb (offset + n) (2 ^ 64))) [
    | inl e ↦
        let past : leb (offset + n) len ≡ false = ground (arith, l) in
        ap (λ b. within len (if b then some (offset + n) else none)) e
        ∙ ap (λ b. if b then some (offset + n) else none) past
    | inr e ↦ ap (λ b. within len (if b then some (offset + n) else none)) e
  ]

  -- A write of bytes at an offset, whatever the two are: if they end within the target, they
  -- replace the bytes from the offset on, as many as they are, and all others stay; otherwise,
  -- the sum of the offset and their number may overflow, nothing is written and the error says how
  -- many bytes there is room for. The target has less than 2^64 bytes.
  pub write_bytes-Wrote :
      (offset : ℕ) (bytes target : List ℕ)
      → length target < 2 ^ 64
      → Wrote to_string offset bytes target
  unfolding write_bytes write_to
  write_bytes-Wrote offset bytes target small =
      elim (Bool-cases (leb (offset + length bytes) (length target))) [
        | inl e ↦
            let room : offset + length bytes ≤ length target = ground (arith, e) in
            let (before, rest, cut, at) = split_at offset target (omega (arith, room)) in
            let (old, after, cut_again, as_many) =
              split_at (length bytes) rest
                (omega (arith, room, at, ap length cut, length-append before rest)) in
            let whole : target ≡ before ++ (old ++ after) = cut ∙ ap (λ t. before ++ t) cut_again in
            replaced before old after at as_many whole (
              ap (λ end. write_to to_string end offset bytes target)
                (fitting offset (length target) (length bytes) small room)
              ∙ ap (λ t. (ok tt, t))
                  (ap (λ n. copy_at n bytes target) (sym at)
                    ∙ (ap (λ t. copy_at (length before) bytes t) whole
                        ∙ copy_at-append before bytes old after as_many)))
        | inr e ↦
            let past : length target < offset + length bytes = ground (arith, e) in
            refused past (
              ap (λ end. write_to to_string end offset bytes target)
                (leaving offset (length target) (length bytes) past))
      ]
