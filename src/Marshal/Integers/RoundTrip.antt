-- ===== src/Marshal/Integers/RoundTrip.antt =====
-- An integer given to a guest (crates/guestjs-core/src/marshal/primitives.rs) and taken back.
use guestjs.Prelude.{◌≡◌, sym, ap, ◌∙◌, true, leb, ◌≤◌, Bool-cases, inl, inr, arith, subst}
use guestjs.Errors.{Result, ok, err}
use guestjs.Marshal.Nullish.{
  Kind, number, big_int, undefined_kind, null_kind, boolean, string, symbol, array, function,
  promise, array_buffer, typed_array, data_view, set, object,
}
use guestjs.Marshal.Integers.{
  ℤ, IntegerType, i8, i16, i32, i64, isize, u8, u16, u32, u64, usize, abs, fits, max_safe_integer,
  Numbers, number_of, integer_to, i64_of_kind, i64_from, narrow, integer_from_other, integer_from,
}
use guestjs.Marshal.Integers.Ranges.{RoundsAs, given_if, safe_or_refused, integer_to-safe}

-- The documented behaviour of the engine on a number that it has made of a safe integer, and of
-- `as_i64`, which gives a number of 64 bits.
pub record ReadsBack {S V : Type 0} (numbers : Numbers S V) : Type 0 where
  pub kind :
      (n : ℤ) (s : S) → numbers.kind (numbers.new_number n s).0 (numbers.new_number n s).1 ≡ number
  pub value :
      (n : ℤ) (s : S)
      → abs n ≤ max_safe_integer
      → numbers.as_i64 (numbers.new_number n s).0 (numbers.new_number n s).1
        ≡ (ok n, (numbers.new_number n s).1)

module _ {S V : Type 0} (numbers : Numbers S V) where
  narrow-fits :
      (t : IntegerType) (n : ℤ) (s : S) → fits t n ≡ true → narrow numbers t (ok n, s) ≡ (ok n, s)
  unfolding narrow
  narrow-fits t n s f = ground (arith, f)

  narrow_sound :
      (t : IntegerType) (r : Result ℤ × S) (n : ℤ) (s : S)
      → narrow numbers t r ≡ (ok n, s)
      → fits t n ≡ true
  unfolding narrow
  narrow_sound t (ok m, s) n u h = elim (Bool-cases (fits t m)) [
    | inl e ↦ let same : m ≡ n = ground (arith, h, e) in subst (λ x. fits t x ≡ true) same e
    | inr e ↦ absurd (ground (arith, h, e))
  ]
  narrow_sound t (err e, s) n u h = absurd (ground arith)

  -- all the types, from what `i64` reads
  pub integer_from-i64 :
      (t : IntegerType) (v : V) (s u : S) (n : ℤ)
      → i64_from numbers v s ≡ (ok n, u)
      → fits t n ≡ true
      → integer_from numbers t v s ≡ (ok n, u)
  unfolding integer_from integer_from_other
  integer_from-i64 i64 v s u n h f = h
  integer_from-i64 i8 v s u n h f = ap (narrow numbers i8) h ∙ narrow-fits i8 n u f
  integer_from-i64 i16 v s u n h f = ap (narrow numbers i16) h ∙ narrow-fits i16 n u f
  integer_from-i64 i32 v s u n h f = ap (narrow numbers i32) h ∙ narrow-fits i32 n u f
  integer_from-i64 isize v s u n h f = ap (narrow numbers isize) h ∙ narrow-fits isize n u f
  integer_from-i64 u8 v s u n h f = ap (narrow numbers u8) h ∙ narrow-fits u8 n u f
  integer_from-i64 u16 v s u n h f = ap (narrow numbers u16) h ∙ narrow-fits u16 n u f
  integer_from-i64 u32 v s u n h f = ap (narrow numbers u32) h ∙ narrow-fits u32 n u f
  integer_from-i64 u64 v s u n h f = ap (narrow numbers u64) h ∙ narrow-fits u64 n u f
  integer_from-i64 usize v s u n h f = ap (narrow numbers usize) h ∙ narrow-fits usize n u f

  made_back :
      (n : ℤ) (s u : S) (v : V)
      → ReadsBack numbers
      → abs n ≤ max_safe_integer
      → number_of numbers n s ≡ (ok v, u)
      → i64_from numbers v u ≡ (ok n, u)
  unfolding number_of i64_from i64_of_kind
  made_back n s u v back safe h =
      let made : (numbers.new_number n s).0 ≡ v = ground (arith, h) in
      let left : (numbers.new_number n s).1 ≡ u = ap (λ x. x.1) h in
      subst (λ w. i64_of_kind numbers (numbers.kind w u) w u ≡ (ok n, u)) made
        (subst
          (λ t.
            i64_of_kind numbers (numbers.kind (numbers.new_number n s).0 t)
              (numbers.new_number n s).0 t
            ≡ (ok n, t))
          left
          (ap (λ k. i64_of_kind numbers k (numbers.new_number n s).0 (numbers.new_number n s).1)
              (back.kind n s)
            ∙ back.value n s safe))

  -- An integer of any of the types that a guest was given comes back as itself and leaves the
  -- guest's state as it is. The engine reads back the safe integers that it has made a number of,
  -- and `as f64` keeps the integers up to 2^53 and takes no larger one below it.
  pub integer_from-integer_to :
      (t : IntegerType) (n : ℤ) (s u : S) (v : V)
      → RoundsAs numbers
      → ReadsBack numbers
      → fits t n ≡ true
      → integer_to numbers t n s ≡ (ok v, u)
      → integer_from numbers t v u ≡ (ok n, u)
  integer_from-integer_to t n s u v rounds back f h =
      let given : safe_or_refused numbers n s ≡ (ok v, u) =
        sym (integer_to-safe numbers t n s rounds f) ∙ h in
      elim (Bool-cases (leb (abs n) max_safe_integer)) [
        | inl e ↦
            integer_from-i64 t v u u n
              (made_back n s u v back (ground arith)
                (sym (ap (λ b. given_if numbers b n n s) e) ∙ given))
              f
        | inr e ↦
            let refused = sym (ap (λ b. given_if numbers b n n s) e) ∙ given in
            absurd (ground (arith, refused))
      ]

  integer_from_other-fits :
      (t : IntegerType) (v : V) (s u : S) (n : ℤ)
      → integer_from_other numbers t v s ≡ (ok n, u)
      → fits t n ≡ true
  unfolding integer_from_other
  integer_from_other-fits t v s u n h = narrow_sound t (i64_from numbers v s) n u h

  i64_of_kind-fits :
      (k : Kind) (v : V) (s u : S) (n : ℤ)
      → ((w : V) (r x : S) (m : ℤ) → numbers.as_i64 w r ≡ (ok m, x) → fits i64 m ≡ true)
      → i64_of_kind numbers k v s ≡ (ok n, u)
      → fits i64 n ≡ true
  unfolding i64_of_kind
  i64_of_kind-fits number v s u n wide h = wide v s u n h
  i64_of_kind-fits big_int v s u n wide h = wide v s u n h
  i64_of_kind-fits undefined_kind v s u n wide h = absurd (ground arith)
  i64_of_kind-fits null_kind v s u n wide h = absurd (ground arith)
  i64_of_kind-fits boolean v s u n wide h = absurd (ground arith)
  i64_of_kind-fits string v s u n wide h = absurd (ground arith)
  i64_of_kind-fits symbol v s u n wide h = absurd (ground arith)
  i64_of_kind-fits array v s u n wide h = absurd (ground arith)
  i64_of_kind-fits function v s u n wide h = absurd (ground arith)
  i64_of_kind-fits promise v s u n wide h = absurd (ground arith)
  i64_of_kind-fits array_buffer v s u n wide h = absurd (ground arith)
  i64_of_kind-fits typed_array v s u n wide h = absurd (ground arith)
  i64_of_kind-fits data_view v s u n wide h = absurd (ground arith)
  i64_of_kind-fits set v s u n wide h = absurd (ground arith)
  i64_of_kind-fits object v s u n wide h = absurd (ground arith)

  -- An integer that is taken from a guest is one of its type, whatever the value was, where
  -- `as_i64` of the engine gives a number of 64 bits.
  pub integer_from-fits :
      (t : IntegerType) (v : V) (s u : S) (n : ℤ)
      → ((w : V) (r x : S) (m : ℤ) → numbers.as_i64 w r ≡ (ok m, x) → fits i64 m ≡ true)
      → integer_from numbers t v s ≡ (ok n, u)
      → fits t n ≡ true
  unfolding integer_from i64_from
  integer_from-fits i64 v s u n wide h = i64_of_kind-fits (numbers.kind v s) v s u n wide h
  integer_from-fits i8 v s u n wide h = integer_from_other-fits i8 v s u n h
  integer_from-fits i16 v s u n wide h = integer_from_other-fits i16 v s u n h
  integer_from-fits i32 v s u n wide h = integer_from_other-fits i32 v s u n h
  integer_from-fits isize v s u n wide h = integer_from_other-fits isize v s u n h
  integer_from-fits u8 v s u n wide h = integer_from_other-fits u8 v s u n h
  integer_from-fits u16 v s u n wide h = integer_from_other-fits u16 v s u n h
  integer_from-fits u32 v s u n wide h = integer_from_other-fits u32 v s u n h
  integer_from-fits u64 v s u n wide h = integer_from_other-fits u64 v s u n h
  integer_from-fits usize v s u n wide h = integer_from_other-fits usize v s u n h
