-- ===== src/Marshal/Integers/Ranges.antt =====
-- Which integers the conversions of crates/guestjs-core/src/marshal/primitives.rs let through.
use guestjs.Prelude.{
  ◌≡◌, refl, sym, ap, ◌∙◌, Bool, true, false, leb, ◌≤◌, ◌<◌, ◌+◌, ◌-◌, ◌^◌, Bool-cases, inl, inr,
  arith, [], ◌∷◌, if◌then◌else◌,
}
use guestjs.Errors.{Result, err, conversion, literal, format}
use guestjs.Marshal.Integers.{
  ℤ, pos, negsuc, IntegerType, i8, i16, i32, i64, isize, u8, u16, u32, u64, usize, abs, fits,
  is_wide, max_safe_integer, Numbers, number_of, safe_number, integer_to,
}

-- The documented behaviour of `as f64` on integers: those up to 2^53 are kept, and no
-- larger one comes below it.
pub record RoundsAs {S V : Type 0} (numbers : Numbers S V) : Type 0 where
  pub exact : (n : ℤ) → abs n ≤ 2 ^ 53 → numbers.as_f64 n ≡ n
  pub beyond : (n : ℤ) → 2 ^ 53 < abs n → 2 ^ 53 ≤ abs (numbers.as_f64 n)

module _ {S V : Type 0} (numbers : Numbers S V) where
  -- a number in place of `n`, or the error that names `n`
  abbrev pub given_if : Bool → ℤ → ℤ → S → Result V × S
  given_if true n m s = number_of numbers m s
  given_if false n m s =
      (err (conversion (literal "safe integer") (format "{}" (numbers.to_string n ∷ []))), s)

  -- what the guest is given of an integer: itself, if it is safe
  abbrev pub safe_or_refused : ℤ → S → Result V × S
  safe_or_refused n s = given_if (leb (abs n) (2 ^ 53 - 1)) n n s

  safe_number-if :
      (n m : ℤ) (s : S) → safe_number numbers n m s ≡ given_if (leb (abs m) max_safe_integer) n m s
  unfolding safe_number
  safe_number-if n m s =
      elim (leb (abs m) max_safe_integer)
        as (λ b.
          (if b then number_of numbers m s else (
            err (conversion (literal "safe integer") (format "{}" (numbers.to_string n ∷ []))),
            s,
          ))
          ≡ given_if b n m s) [ true ↦ refl | false ↦ refl ]

  small_safe :
      (n : ℤ) (s : S) → abs n ≤ max_safe_integer → number_of numbers n s ≡ safe_or_refused n s
  small_safe n s small =
      let safe : leb (abs n) max_safe_integer ≡ true = ground arith in
      sym (ap (λ b. given_if b n n s) safe)

module _ {S V : Type 0} (numbers : Numbers S V) (rounds : RoundsAs numbers) where
  safe_rounded :
      (n : ℤ) → leb (abs (numbers.as_f64 n)) max_safe_integer ≡ leb (abs n) max_safe_integer
  safe_rounded n = elim (Bool-cases (leb (abs n) (max_safe_integer + 1))) [
    | inl e ↦ ap (λ m. leb (abs m) max_safe_integer) (rounds.exact n (ground arith))
    | inr e ↦
        let far : max_safe_integer < abs (numbers.as_f64 n) = rounds.beyond n (ground arith) in
        ground arith
  ]

  safe_number-rounded :
      (n : ℤ) (s : S) → safe_number numbers n (numbers.as_f64 n) s ≡ safe_or_refused numbers n s
  safe_number-rounded n s = elim (Bool-cases (leb (abs n) max_safe_integer)) [
    | inl e ↦
        let same = rounds.exact n (ground arith) in
        ap (λ m. safe_number numbers n m s) same ∙ safe_number-if numbers n n s
    | inr e ↦
        safe_number-if numbers n (numbers.as_f64 n) s
        ∙ (ap (λ b. given_if numbers b n (numbers.as_f64 n) s) (safe_rounded n ∙ e)
            ∙ sym (ap (λ b. given_if numbers b n n s) e))
  ]

-- A number of one of the small types is safe.
fits-small :
    (t : IntegerType) (n : ℤ) → is_wide t ≡ false → fits t n ≡ true → abs n ≤ max_safe_integer
unfolding fits guestjs.Marshal.Integers.fits_in guestjs.Marshal.Integers.bits
    guestjs.Marshal.Integers.is_signed is_wide abs
fits-small i8 (pos n) w f = ground arith
fits-small i8 (negsuc n) w f = ground arith
fits-small i16 (pos n) w f = ground arith
fits-small i16 (negsuc n) w f = ground arith
fits-small i32 (pos n) w f = ground arith
fits-small i32 (negsuc n) w f = ground arith
fits-small u8 (pos n) w f = ground arith
fits-small u8 (negsuc n) w f = cc
fits-small u16 (pos n) w f = ground arith
fits-small u16 (negsuc n) w f = cc
fits-small u32 (pos n) w f = ground arith
fits-small u32 (negsuc n) w f = cc
fits-small i64 n w f = cc
fits-small isize n w f = cc
fits-small u64 n w f = cc
fits-small usize n w f = cc

-- An integer of any of the types is given to the guest as itself, never rounded, if it is at most
-- 2^53 - 1 in absolute value; a larger one is refused by an error that names it, and the guest's
-- state stays as it was. `as f64` keeps the integers up to 2^53 and takes no larger one below it.
pub integer_to-safe :
    {S V : Type 0} (numbers : Numbers S V) (t : IntegerType) (n : ℤ) (s : S)
    → RoundsAs numbers
    → fits t n ≡ true
    → integer_to numbers t n s ≡ safe_or_refused numbers n s
unfolding integer_to
integer_to-safe numbers t n s rounds f = elim (Bool-cases (is_wide t)) [
  | inl w ↦
      ap (λ b. if b then safe_number numbers n (numbers.as_f64 n) s else number_of numbers n s) w
      ∙ safe_number-rounded numbers rounds n s
  | inr w ↦
      ap (λ b. if b then safe_number numbers n (numbers.as_f64 n) s else number_of numbers n s) w
      ∙ small_safe numbers n s (fits-small t n w f)
]
