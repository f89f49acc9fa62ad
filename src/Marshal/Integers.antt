-- ===== src/Marshal/Integers.antt =====
-- The integers of crates/guestjs-core/src/marshal/primitives.rs. A value of the guest is made of an
-- `f64` that is a whole number, and `as_i64` of the engine reads it; both are parameters, as are
-- the rounding of `as f64` and `to_string`. A pointer has 64 bits.
pub mod Ranges
pub mod RoundTrip
use guestjs.Prelude.{ℕ, Bool, true, false, ltb, leb, ◌^◌, ◌+◌, ◌-◌, if◌then◌else◌, [], ◌∷◌, String}
use guestjs.Text.{Str, codes}
use guestjs.Errors.{Error, Result, ok, err, conversion, literal, format}
use guestjs.Marshal.Nullish.{Kind, number, big_int}
use guestjs.Marshal.Describe.{describe, mismatch}

-- `negsuc n` is the number -(n + 1).
pub data ℤ : Type 0 where
  pos negsuc : ℕ → ℤ

pub data IntegerType : Type 0 where
  i8 i16 i32 i64 isize u8 u16 u32 u64 usize : IntegerType

unfoldable pub bits : IntegerType → ℕ
bits i8 = 8
bits i16 = 16
bits i32 = 32
bits i64 = 64
bits isize = 64
bits u8 = 8
bits u16 = 16
bits u32 = 32
bits u64 = 64
bits usize = 64

unfoldable pub is_signed : IntegerType → Bool
is_signed i8 = true
is_signed i16 = true
is_signed i32 = true
is_signed i64 = true
is_signed isize = true
is_signed _ = false

-- whether a number is one of a type with a sign or without, of so many bits
unfoldable pub fits_in : Bool → ℕ → ℤ → Bool
fits_in true width (pos n) = ltb n (2 ^ (width - 1))
fits_in true width (negsuc n) = ltb n (2 ^ (width - 1))
fits_in false width (pos n) = ltb n (2 ^ width)
fits_in false width (negsuc n) = false

-- `try_from` succeeds.
unfoldable pub fits : IntegerType → ℤ → Bool
unfolding fits_in bits is_signed
fits t n = fits_in (is_signed t) (bits t) n

unfoldable pub abs : ℤ → ℕ
abs (pos n) = n
abs (negsuc n) = n + 1

-- the name that `stringify!` gives
unfoldable pub type_name : IntegerType → String
type_name i8 = "i8"
type_name i16 = "i16"
type_name i32 = "i32"
type_name i64 = "i64"
type_name isize = "isize"
type_name u8 = "u8"
type_name u16 = "u16"
type_name u32 = "u32"
type_name u64 = "u64"
type_name usize = "usize"

abbrev pub max_safe_integer : ℕ
max_safe_integer = 9007199254740991

-- the types of `safe_integer!`; those of `number!` are converted by `f64::from`
unfoldable pub is_wide : IntegerType → Bool
is_wide i64 = true
is_wide isize = true
is_wide u64 = true
is_wide usize = true
is_wide _ = false

-- What the conversions call: the standard library and the engine, on its state `S`.
pub record Numbers (S V : Type 0) : Type 0 where
  pub as_f64 : ℤ → ℤ
  pub to_string : ℤ → Str
  pub kind : V → S → Kind
  pub new_number : ℤ → S → V × S
  pub as_i64 : V → S → Result ℤ × S

module _ {S V : Type 0} (numbers : Numbers S V) where
  unfoldable pub number_of : ℤ → S → Result V × S
  number_of n s = let (v, t) = numbers.new_number n s in (ok v, t)

  unfoldable pub safe_number : ℤ → ℤ → S → Result V × S
  unfolding abs number_of
  safe_number n rounded s =
      if leb (abs rounded) max_safe_integer
      then number_of rounded s
      else (err (conversion (literal "safe integer") (format "{}" (numbers.to_string n ∷ []))), s)

  unfoldable pub integer_to : IntegerType → ℤ → S → Result V × S
  unfolding is_wide safe_number number_of
  integer_to t n s = if is_wide t then safe_number n (numbers.as_f64 n) s else number_of n s

  -- `i64::from_guest`, by the kind of the value
  unfoldable pub i64_of_kind : Kind → V → S → Result ℤ × S
  i64_of_kind number v s = numbers.as_i64 v s
  i64_of_kind big_int v s = numbers.as_i64 v s
  i64_of_kind kind v s =
      (err (mismatch (describe (codes "number" ∷ (codes "bigint" ∷ [])) []) kind), s)

  unfoldable pub i64_from : V → S → Result ℤ × S
  unfolding i64_of_kind
  i64_from v s = i64_of_kind (numbers.kind v s) v s

  unfoldable pub narrow : IntegerType → Result ℤ × S → Result ℤ × S
  unfolding fits type_name
  narrow t (ok n, s) =
      if fits t n
      then (ok n, s)
      else (err (conversion (literal (type_name t)) (format "{}" (numbers.to_string n ∷ []))), s)
  narrow t (err e, s) = (err e, s)

  unfoldable pub integer_from_other : IntegerType → V → S → Result ℤ × S
  unfolding narrow i64_from
  integer_from_other t v s = narrow t (i64_from v s)

  -- `i64` has a conversion of its own, on which the others build.
  unfoldable pub integer_from : IntegerType → V → S → Result ℤ × S
  unfolding integer_from_other i64_from
  integer_from i64 v s = i64_from v s
  integer_from t v s = integer_from_other t v s
